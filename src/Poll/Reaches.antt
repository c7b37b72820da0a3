-- ===== src/Poll/Reaches.antt =====
-- main.c: a round of the main loop on low memory.
use earlyoom.Prelude.{ℕ, ◌≡◌, ◌≢◌, arith, true, false, none}
use earlyoom.Prelude.Int.{ℤ, pos, ◌<ℤ◌}
use earlyoom.Double.{Double}
use earlyoom.Args.{Args}
use earlyoom.Machine.{kill, Os, Machine, done}
use earlyoom.Machine.Returns.{Any}
use earlyoom.Machine.Calls.{Calls, Calls-pure}
use earlyoom.Machine.Sends.{Calls-Any, Did, Did-bind, Did-first, Did-branch}
use earlyoom.MemInfo.{MemInfo, parse_meminfo}
use earlyoom.MemInfo.Reads.{parse_meminfo-Calls}
use earlyoom.Decide.{lowmem_sig}
use earlyoom.Select.{ProcInfo, find_largest_process}
use earlyoom.Select.Reads.{find_largest_process-Calls}
use earlyoom.Kill.Reaches.{kill_process-Sends}
use earlyoom.Poll.{warn_low, kill_if_still_low, poll_round}
use earlyoom.Poll.Parts.{warn_low-Calls, finish_round-Calls}

-- The course of a round: low memory, a victim, and memory that is low still.
pub record LowRound {W : Type 0} ⦃d : Double W⦄ (os : Os) (args : Args W) (before : Machine)
    : Type 0 where
  pub memory : MemInfo W
  pub still : MemInfo W
  pub looked : Machine
  pub warned : Machine
  pub chosen : Machine
  pub looked_again : Machine
  pub victim : ProcInfo
  pub looks : parse_meminfo os before ≡ (done memory, looked)
  pub is_low : lowmem_sig args memory ≢ 0
  pub warns : warn_low os args (lowmem_sig args memory) looked ≡ (done tt, warned)
  pub finds : find_largest_process os args warned ≡ (done victim, chosen)
  pub is_found : pos 0 <ℤ victim.pid
  pub looks_again : parse_meminfo os chosen ≡ (done still, looked_again)
  pub is_still_low : lowmem_sig args still ≢ 0

module _ {W : Type 0} ⦃d : Double W⦄ (os : Os) (args : Args W) where
  -- Where a round finds low memory, a victim, and then memory that is low still, the victim is sent
  -- the signal that the first look calls for, unless --dryrun, -g, -P or --kernel-oom is given.
  pub poll_round-Did :
      (interrupts : ℕ) (countdown_ms : ℤ) (before : Machine)
      → args.dryrun ≡ false
      → args.kill_process_group ≡ false
      → args.kill_process_prehook ≡ none
      → args.kernel_oom ≡ false
      → (low : LowRound os args before)
      → Did
          (kill low.victim.pid (lowmem_sig args low.memory))
          before.trace
          (poll_round os args interrupts countdown_ms before).1.trace
  unfolding poll_round kill_if_still_low
  poll_round-Did interrupts countdown_ms before wet single unhooked user low =
      let quiet : Calls Any (parse_meminfo {W = W} os) = Calls-Any (parse_meminfo-Calls os) in
      Did-bind _ _ before low.looked low.memory low.looks quiet (
        Did-bind _ _ low.looked low.warned tt low.warns
          (warn_low-Calls os args (λ c h. tt) (λ ms. tt) _)
          (Did-branch _ true _ _ low.warned _ (ground arith) (
            Did-branch _ false _ _ low.warned _ user (
              Did-bind _ _ low.warned low.chosen low.victim low.finds
                (Calls-Any (find_largest_process-Calls os args))
                (Did-first _ _ low.chosen
                  (Did-bind _ _ low.chosen low.looked_again low.still low.looks_again quiet (
                    Did-first _ _ low.looked_again
                      (Did-branch _ false _ _ low.looked_again _ (ground arith) (
                        (kill_process-Sends os args _ low.victim wet single unhooked
                            low.is_found).at
                          low.looked_again))
                      λ _. Calls-pure low.still))
                  λ m'.
                    finish_round-Calls os args (λ c h. tt) (λ ms. tt) interrupts m'
                      countdown_ms)))))
