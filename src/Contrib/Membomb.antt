-- ===== src/Contrib/Membomb.antt =====
-- contrib/membomb: eat_all_memory.c, and the programs that call it, membomb.c, membomb.mmap_anon.c,
-- membomb.mmap_file.c and membomb.subthread.c.
--
-- The loop never returns, so the model runs a number of its rounds. A store that faults ends the
-- process by the signal that the reply names. `errno = ret`, which only a message reads, is left out.
pub mod Inside
mod Tests
use earlyoom.Prelude.{ℕ, zero, suc, Bool, not, Option, none, some}
use earlyoom.Prelude.Int.{ℤ, pos, negsuc, quot, ◌+ℤ◌, ◌-ℤ◌, ◌*ℤ◌, ◌==ℤ◌}
use earlyoom.Prelude.Text.{Bytes, codes}
use earlyoom.Args.{sigterm}
use earlyoom.Machine.{
  tool, malloc, mmap_anonymous, mmap_shared, mkstemp, unlink, store, handle_signal, gettid,
  pthread_create, sysconf_pagesize, sleep, Os, Machine, Action, pure, exit, branch, ◌>>=◌, ◌>>◌,
  skip, call, warn, info, failed,
}
use earlyoom.Contrib.{killed_by, divided, remainder, Time, time_of_day, elapsed}

pub data EatHow : Type 0 where
  eat_malloc eat_mmap_anon eat_mmap_file : EatHow

-- The local variables of `eat_all_memory`.
pub record Bomb : Type 0 where
  pub page_size : ℤ
  pub num_pages : ℕ
  pub bs : ℤ
  pub cnt : ℕ
  pub last_sum : ℤ
  pub tv1 : Time

abbrev tmp_path : Bytes
tmp_path = codes "/var/tmp/membomb.mmap_file.XXXXXX"

module _ (os : Os) where
  unfoldable pub handle_sigterm : Action Unit
  handle_sigterm = info os

  -- A message, and `continue`; the second one sleeps before that.
  abbrev again : Action (Option ℤ)
  again = warn os >> pure none

  abbrev again_later : Action (Option ℤ)
  again_later = do warn os; call os (sleep 1); pure none

  -- A block of memory, or none where the loop goes on to its next round.
  unfoldable pub grab : EatHow → ℤ → Action (Option ℤ)
  grab eat_malloc bs = do
    p ← call os (tool (malloc bs))
    branch (p.ret ==ℤ pos 0) again (pure (some p.ret))
  grab eat_mmap_anon bs = do
    p ← call os (tool (mmap_anonymous bs))
    branch (p.ret ==ℤ negsuc 0) again (pure (some p.ret))
  grab eat_mmap_file bs = do
    fd ← call os (tool (mkstemp tmp_path))
    branch (fd.ret ==ℤ negsuc 0) again_later do
      ret ← call os (tool (unlink fd.text))
      branch (not (ret.ret ==ℤ pos 0)) (warn os) skip
      branch (not (ret.ret ==ℤ pos 0)) again_later do
        p ← call os (tool (mmap_shared bs fd.ret))
        branch (p.ret ==ℤ negsuc 0) again_later (pure (some p.ret))

  unfoldable pub store_byte : ℤ → ℕ → Action Unit
  store_byte address byte = do
    r ← call os (tool (store address byte))
    branch (failed r) (killed_by r.err) skip

  -- So many pages from page `i` on: one byte in each.
  unfoldable pub touch_pages : ℕ → ℤ → ℤ → ℕ → Action Unit
  touch_pages zero p page_size i = skip
  touch_pages (suc pages) p page_size i = do
    store_byte (p +ℤ pos i *ℤ page_size) 0xab
    touch_pages pages p page_size (suc i)

  -- Behind every 100 MB: the speed. The last statement takes the time anew.
  unfoldable pub print_speed : Bomb → Action Bomb
  print_speed b = do
    let sum = quot (quot (b.bs *ℤ pos b.cnt) 1024) 1024
    tv2 ← time_of_day os
    mbps ← divided os ((sum -ℤ b.last_sum) *ℤ pos 1000000) (elapsed b.tv1 tv2)
    info os
    tv1 ← time_of_day os
    pure (record b { last_sum = sum; tv1 = tv1 })

  -- What follows where there is a block.
  unfoldable pub fill_block : Bomb → Option ℤ → Action Bomb
  fill_block b none = pure b
  fill_block b (some p) = do
    touch_pages b.num_pages p b.page_size 0
    let counted = record b { cnt = suc b.cnt }
    cnt_per_100mb ← divided os (pos 104857600) b.bs
    rest ← remainder os (pos counted.cnt) cnt_per_100mb
    branch (rest ==ℤ pos 0) (print_speed counted) (pure counted)

  unfoldable pub eat_round : EatHow → Bomb → Action Bomb
  eat_round how b = do p ← grab how b.bs; fill_block b p

  unfoldable pub eat_rounds : ℕ → EatHow → Bomb → Action Bomb
  eat_rounds zero how b = pure b
  eat_rounds (suc rounds) how b = do b' ← eat_round how b; eat_rounds rounds how b'

  abbrev pub pages_of : EatHow → ℕ
  pages_of eat_mmap_file = 10000
  pages_of _ = 10

  unfoldable pub eat_all_memory : ℕ → EatHow → Action Bomb
  eat_all_memory rounds how = do
    page ← call os sysconf_pagesize
    call os (tool (handle_signal sigterm))
    tv1 ← time_of_day os
    eat_rounds rounds how (record {
      page_size = page.ret;
      num_pages = pages_of how;
      bs = page.ret *ℤ pos (pages_of how);
      cnt = 0;
      last_sum = pos 0;
      tv1 = tv1;
    })

  unfoldable pub membomb : ℕ → Action Bomb
  membomb rounds = info os >> eat_all_memory rounds eat_malloc

  unfoldable pub membomb_mmap_anon : ℕ → Action Bomb
  membomb_mmap_anon rounds = info os >> eat_all_memory rounds eat_mmap_anon

  unfoldable pub membomb_mmap_file : ℕ → Action Bomb
  membomb_mmap_file rounds = info os >> eat_all_memory rounds eat_mmap_file

  unfoldable pub eat_all_memory_thread : ℕ → Action Bomb
  eat_all_memory_thread rounds = do call os (tool gettid); info os; eat_all_memory rounds eat_malloc

  -- `main` of membomb.subthread.c: `pthread_exit` ends its thread alone.
  unfoldable pub membomb_subthread : Action Unit
  membomb_subthread = do call os (tool gettid); info os; call os (tool pthread_create); skip
