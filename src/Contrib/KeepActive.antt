-- ===== src/Contrib/KeepActive.antt =====
-- contrib/membomb/keep_active.c: it keeps the pages of a file of 10 GiB in use.
--
-- The outer loop never returns, so the model runs a number of its rounds; the inner one has fuel, and
-- the result says whether it came to its end. KeepActive.Ends says which fuel is enough.
pub mod Ends
use earlyoom.Prelude.{ℕ, zero, suc, Bool, true, false, not}
use earlyoom.Prelude.Int.{ℤ, pos, negsuc, ◌+ℤ◌, ltb_ℤ, leb_ℤ, ◌==ℤ◌}
use earlyoom.Prelude.Text.{Bytes, codes}
use earlyoom.Machine.{
  tool, mkstemp, unlink, posix_fallocate, fsync, pread, sysconf_pagesize, Os, Action, pure, exit,
  branch, ◌>>=◌, ◌>>◌, skip, call, warn, info,
}
use earlyoom.Contrib.{divided, Time, time_of_day, elapsed}

-- 10 GiB
abbrev pub file_size : ℤ
file_size = pos 10737418240

abbrev tmp_path : Bytes
tmp_path = codes "/var/tmp/keep_active.XXXXXX"

module _ (os : Os) where
  abbrev give_up : {A : Type 0} → Action A
  give_up = warn os >> exit 1

  -- `for (off = 0; off < size; off += increment)`, from `off` on.
  unfoldable pub read_pages : ℕ → ℤ → ℤ → ℤ → ℤ → Action Bool
  read_pages zero fd size increment off = pure false
  read_pages (suc fuel) fd size increment off = branch (not (ltb_ℤ off size)) (pure true) do
    ret ← call os (tool (pread fd off))
    branch (leb_ℤ ret.ret (pos 0)) give_up (read_pages fuel fd size increment (off +ℤ increment))

  -- One round of the outer loop, where the inner one came to its end: the time after it.
  unfoldable pub spin_round : ℕ → ℤ → Time → Action (Bool × Time)
  spin_round fuel fd tv1 = do
    increment ← call os sysconf_pagesize
    ended ← read_pages fuel fd file_size increment.ret (pos 0)
    branch (not ended) (pure (false, tv1)) do
      tv2 ← time_of_day os
      mbps ← divided os file_size (elapsed tv1 tv2)
      info os
      tv1' ← time_of_day os
      pure (true, tv1')

  unfoldable pub spin : ℕ → ℕ → ℤ → Time → Action Bool
  spin zero fuel fd tv1 = pure true
  spin (suc rounds) fuel fd tv1 = do
    (ended, tv1') ← spin_round fuel fd tv1
    branch ended (spin rounds fuel fd tv1') (pure false)

  unfoldable pub keep_active : ℕ → ℕ → Action Bool
  keep_active rounds fuel = do
    fd ← call os (tool (mkstemp tmp_path))
    branch (fd.ret ==ℤ negsuc 0) give_up do
      removed ← call os (tool (unlink fd.text))
      branch (not (removed.ret ==ℤ pos 0)) give_up do
        allocated ← call os (tool (posix_fallocate fd.ret (pos 0) file_size))
        branch (not (allocated.ret ==ℤ pos 0)) give_up do
          call os (tool (fsync fd.ret))
          info os
          info os
          tv1 ← time_of_day os
          spin rounds fuel fd.ret tv1
