-- ===== src/Poll/Quiet.antt =====
-- main.c: the main loop where memory is not low, or not low any more.
use earlyoom.Prelude.{arith, ◌≡◌, ◌≢◌, true, false, ℕ}
use earlyoom.Prelude.Int.{ℤ}
use earlyoom.Double.{Double}
use earlyoom.Args.{Args}
use earlyoom.Machine.{Os, Machine, done}
use earlyoom.Machine.Calls.{
  Adds, Calls, Adds-bind, Adds-then, Adds-first, Adds-branch, Calls-weaken, Calls-bind,
  Calls-branch, Calls-pure, Calls-say,
}
use earlyoom.Machine.Quiet.{IsIdle, IsReading-IsIdle}
use earlyoom.MemInfo.{MemInfo, parse_meminfo}
use earlyoom.MemInfo.Reads.{parse_meminfo-Calls}
use earlyoom.Decide.{lowmem_sig}
use earlyoom.Select.{ProcInfo, find_largest_process}
use earlyoom.Select.Reads.{find_largest_process-Calls}
use earlyoom.Poll.Parts.{warn_low-Calls, report-Calls, finish_round-Calls}
use earlyoom.Poll.{warn_low, poll_round, kill_if_still_low}

-- The course of a round: low memory, a victim, and memory that is not low any more.
pub record RecoveredRound {W : Type 0} ⦃d : Double W⦄ (os : Os) (args : Args W) (before : Machine)
    : Type 0 where
  pub memory : MemInfo W
  pub recovered : MemInfo W
  pub looked : Machine
  pub warned : Machine
  pub chosen : Machine
  pub looked_again : Machine
  pub victim : ProcInfo
  pub looks : parse_meminfo os before ≡ (done memory, looked)
  pub is_low : lowmem_sig args memory ≢ 0
  pub warns : warn_low os args (lowmem_sig args memory) looked ≡ (done tt, warned)
  pub finds : find_largest_process os args warned ≡ (done victim, chosen)
  pub looks_again : parse_meminfo os chosen ≡ (done recovered, looked_again)
  pub has_recovered : lowmem_sig args recovered ≡ 0

module _ {W : Type 0} ⦃d : Double W⦄ (os : Os) (args : Args W) where
  -- A round whose look at the memory finds it not low only reads and sleeps.
  pub poll_round_quiet :
      (interrupts : ℕ) (countdown_ms : ℤ) (before after : Machine) (m : MemInfo W)
      → parse_meminfo os before ≡ (done m, after)
      → lowmem_sig args m ≡ 0
      → Adds IsIdle before.trace (poll_round os args interrupts countdown_ms before).1.trace
  unfolding poll_round
  poll_round_quiet interrupts countdown_ms before after m e quiet =
      Adds-bind _ _ before after m e (Calls-weaken IsReading-IsIdle (parse_meminfo-Calls os)) (
        Calls-bind (warn_low-Calls os args IsReading-IsIdle (λ ms. tt) _) λ _.
          Calls-branch (λ low. absurd (ground arith))
            λ _.
              Calls-bind (report-Calls os args IsReading-IsIdle (λ ms. tt) m countdown_ms)
                λ countdown_ms'.
                  finish_round-Calls os args IsReading-IsIdle (λ ms. tt) interrupts m countdown_ms')

  -- A round that finds low memory and chooses a victim only reads and sleeps where the memory is not
  -- low any more when the victim has been chosen, unless --kernel-oom is given.
  pub poll_round_spares :
      (interrupts : ℕ) (countdown_ms : ℤ) (before : Machine)
      → args.kernel_oom ≡ false
      → RecoveredRound os args before
      → Adds IsIdle before.trace (poll_round os args interrupts countdown_ms before).1.trace
  unfolding poll_round kill_if_still_low
  poll_round_spares interrupts countdown_ms before user round =
      let idle : Calls IsIdle (parse_meminfo {W = W} os) =
        Calls-weaken IsReading-IsIdle (parse_meminfo-Calls os) in
      let chooses = Calls-weaken IsReading-IsIdle (find_largest_process-Calls os args) in
      Adds-then _ _ before round.looked round.memory round.looks idle (
        Adds-then _ _ round.looked round.warned tt round.warns
          (warn_low-Calls os args IsReading-IsIdle (λ ms. tt) _)
          (Adds-branch _ true _ _ round.warned (ground arith) (
            Adds-branch _ false _ _ round.warned user (
              Adds-then _ _ round.warned round.chosen round.victim round.finds chooses (
                Adds-first _ _ round.chosen
                  (Adds-bind _ _ round.chosen round.looked_again round.recovered round.looks_again
                    idle
                    (Calls-bind (Calls-branch (λ _. Calls-say os _ tt) λ low. absurd (ground arith))
                      λ _. Calls-pure round.recovered))
                  λ m'.
                    finish_round-Calls os args IsReading-IsIdle (λ ms. tt) interrupts m'
                      countdown_ms)))))
