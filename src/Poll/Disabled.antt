-- ===== src/Poll/Disabled.antt =====
-- main.c: the main loop behind `-m nan`.
use mathlib.Core.Path.{subst}
use earlyoom.Prelude.{true, ℕ, ◌≤◌, ◌≡◌, refl, arith, false, length}
use earlyoom.Prelude.Int.{ℤ, pos}
use earlyoom.Prelude.Text.{Bytes}
use earlyoom.Double.{Double, IsNumber, IsOrdered}
use earlyoom.Args.{Args}
use earlyoom.Machine.{Os}
use earlyoom.Machine.Calls.{Calls, Calls-weaken, Calls-bind, Calls-branch}
use earlyoom.Machine.Quiet.{IsIdle, IsReading-IsIdle}
use earlyoom.MemInfo.{MemInfo}
use earlyoom.MemInfo.Reads.{parse_meminfo-Calls}
use earlyoom.Decide.Lowmem.{lowmem_sig_nan}
use earlyoom.Options.{Limits, mem_percent, ok, take_limit, merge, merge_mem, merge_swap}
use earlyoom.TermKill.Single.{NoComma, Reads, parse_nan}
use earlyoom.Poll.Parts.{warn_low-Calls, report-Calls, finish_round-Calls, poll_rounds-Calls}
use earlyoom.Poll.{poll_round, poll_rounds}

module _ {W : Type 0} ⦃d : Double W⦄ (laws : IsOrdered W) (os : Os) (args : Args W)
    (term : ¬ (IsNumber args.mem_term_percent)) (kill : ¬ (IsNumber args.mem_kill_percent)) where
  -- No look at the memory finds it low.
  poll_round_nan :
      (interrupts : ℕ) (countdown_ms : ℤ)
      → Calls IsIdle (poll_round os args interrupts countdown_ms)
  unfolding poll_round
  poll_round_nan interrupts countdown_ms =
      Calls-bind (Calls-weaken IsReading-IsIdle (parse_meminfo-Calls os)) λ m.
        let quiet = lowmem_sig_nan laws args m term kill in
        Calls-bind (warn_low-Calls os args IsReading-IsIdle (λ ms. tt) _) λ _.
          Calls-branch (λ low. absurd (ground arith))
            λ _.
              Calls-bind (report-Calls os args IsReading-IsIdle (λ ms. tt) m countdown_ms)
                λ countdown_ms'.
                  finish_round-Calls os args IsReading-IsIdle (λ ms. tt) interrupts m countdown_ms'

  pub poll_rounds_nan :
      (interrupts rounds : ℕ) (countdown_ms : ℤ)
      → Calls IsIdle (poll_rounds os args interrupts rounds countdown_ms)
  poll_rounds_nan = poll_rounds-Calls os args poll_round_nan

module _ {W : Type 0} ⦃d : Double W⦄ (laws : IsOrdered W) where
  open d use {of_int, div}

  -- The limits that -m sets with the value.
  abbrev pub set_mem : Limits W → W → Limits W
  set_mem l v = record l {
    args = record l.args { mem_term_percent = v; mem_kill_percent = div v (of_int (pos 2)) };
    have_mem_percent = true;
  }

  take_nan :
      (m : MemInfo W) (l : Limits W) (s : Bytes) (v : W)
      → length s ≤ 255
      → NoComma s
      → Reads laws s v
      → ¬ (IsNumber v)
      → take_limit m (mem_percent s) l ≡ ok (set_mem l v)
  unfolding take_limit
  take_nan m l s v short single reads nan =
      rw (parse_nan laws s (pos 99) v short single reads nan) refl

  merged_term :
      (m : MemInfo W) (l : Limits W)
      → l.have_mem_size ≡ false
      → (merge m l).mem_term_percent ≡ l.args.mem_term_percent
  unfolding merge merge_mem merge_swap
  merged_term m l e = ground arith

  merged_kill :
      (m : MemInfo W) (l : Limits W)
      → l.have_mem_size ≡ false
      → (merge m l).mem_kill_percent ≡ l.args.mem_kill_percent
  unfolding merge merge_mem merge_swap
  merged_kill m l e = ground arith

  -- An option -m whose value `strtod` reads as NaN is accepted, and where it is the last option and
  -- -M is not given, the main loop then only reads and sleeps, in any number of rounds and whatever
  -- the kernel answers: it never sends a signal.
  pub mem_nan-disables :
      (os : Os) (m : MemInfo W) (l : Limits W) (s : Bytes) (v : W) (interrupts rounds : ℕ)
      → length s ≤ 255
      → NoComma s
      → Reads laws s v
      → ¬ (IsNumber v)
      → l.have_mem_size ≡ false
      → (l' : Limits W) × (take_limit m (mem_percent s) l ≡ ok l')
        × Calls IsIdle (poll_rounds os (merge m l') interrupts rounds (pos 0))
  mem_nan-disables os m l s v interrupts rounds short single reads nan no_size =
      let l' = set_mem l v in
      let half = div v (of_int (pos 2)) in
      (
        l',
        take_nan m l s v short single reads nan,
        poll_rounds_nan laws os (merge m l')
            (λ n. nan (subst IsNumber (merged_term m l' no_size) n))
            (λ n. nan (laws.half_number v (subst IsNumber (merged_kill m l' no_size) n))) interrupts
            rounds (pos 0),
      )
