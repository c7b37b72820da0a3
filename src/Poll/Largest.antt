-- ===== src/Poll/Largest.antt =====
-- main.c and kill.c: a round on low memory in a world that stands still, as a whole.
use earlyoom.Prelude.{ℕ, ◌≡◌, ◌≢◌, false, none, ◌∈◌, [], ap, ◌∙◌}
use earlyoom.Prelude.Int.{ℤ}
use earlyoom.Prelude.Text.{Bytes}
use earlyoom.Double.{Double}
use earlyoom.Args.{Args}
use earlyoom.Machine.{kill, read_dir, Os, Machine, failed}
use earlyoom.Machine.Passes.{Passes, Outcome, outcome, passes_rules}
use earlyoom.Machine.Sends.{Did}
use earlyoom.Machine.Steady.{IsStill, Gives, Gives-state}
use earlyoom.MemInfo.{MemInfo, parse_meminfo}
use earlyoom.Decide.{lowmem_sig}
use earlyoom.Select.{ProcInfo, find_largest_process}
use earlyoom.Select.Order.{◌⊒◌}
use earlyoom.Select.Passes.{find_largest_process-goes}
use earlyoom.Select.Largest.{Candidate, Chosen}
use earlyoom.Select.Selected.{names_of, ExemptsItself}
use earlyoom.Select.Best.{
  find_largest_process-found, find_largest_process-largest, find_largest_process-Chosen,
}
use earlyoom.Poll.{poll_round, warn_low}
use earlyoom.Poll.Reaches.{LowRound, poll_round-Did}

module _ {W : Type 0} ⦃d : Double W⦄ (os : Os) (args : Args W) where
  warn_low-Passes : (sig : ℕ) → Passes (warn_low os args sig)
  unfolding warn_low
  warn_low-Passes sig = search (passes_rules) depth 14

  -- Between the two states a process that passes all checks, and is at least as large as every other
  -- one, is sent the signal.
  pub record KillsLargest (sig : ℕ) (before after : Machine) : Type 0 where
    pub victim : ProcInfo
    pub is_chosen : Chosen os args (names_of os) victim
    pub is_largest :
        (name : Bytes) (c : ProcInfo) → name ∈ names_of os → Candidate os args name c → victim ⊒ c
    pub is_sent : Did (kill victim.pid sig) before.trace after.trace

  module _ (still : IsStill os) (by_score : args.sort_by_rss ≡ false) (memory : MemInfo W)
      (looks : Gives (parse_meminfo os) memory) (low : lowmem_sig args memory ≢ 0)
      (opens : failed (os [] read_dir) ≡ false) (exempt : ExemptsItself os args) (name : Bytes)
      (c : ProcInfo) (listed : name ∈ names_of os) (candidate : Candidate os args name c) where
    find_outcome : (m : Machine) → Outcome (find_largest_process os args) m
    find_outcome m = outcome (find_largest_process os args) m (
        find_largest_process-goes os args m
          (ap (λ r. failed r) (still.same m.trace [] read_dir) ∙ opens))

    -- The course of the round, in which the choice is known to come to its end.
    low_round : (before : Machine) → LowRound os args before
    low_round before =
        let warn =
          outcome (warn_low os args (lowmem_sig args memory)) (parse_meminfo {W = W} os before).1
            ((warn_low-Passes _).goes _) in
        let find = find_outcome warn.after in
        record {
          memory = memory;
          still = memory;
          looked = (parse_meminfo {W = W} os before).1;
          warned = warn.after;
          chosen = find.after;
          looked_again = (parse_meminfo {W = W} os find.after).1;
          victim = find.value;
          looks = Gives-state looks before;
          is_low = low;
          warns = warn.ends;
          finds = find.ends;
          is_found =
              find_largest_process-found os args by_score still find.value warn.after find.after
                name c find.ends listed candidate exempt;
          looks_again = Gives-state looks find.after;
          is_still_low = low;
        }

    -- In a world that stands still, without --sort-by-rss, where /proc can be opened, every look
    -- at the memory shows the same, which is low, and a process passes all checks, but not the
    -- program itself, a round sends the signal to a process that passes all checks and is at
    -- least as large as every other one, unless --dryrun, -g, -P or --kernel-oom is given.
    pub poll_round-KillsLargest :
        (interrupts : ℕ) (countdown_ms : ℤ) (before : Machine)
        → args.dryrun ≡ false
        → args.kill_process_group ≡ false
        → args.kill_process_prehook ≡ none
        → args.kernel_oom ≡ false
        → KillsLargest
            (lowmem_sig args memory)
            before
            (poll_round os args interrupts countdown_ms before).1
    unfolding low_round
    poll_round-KillsLargest interrupts countdown_ms before wet single unhooked user =
        let round = low_round before in
        record {
          victim = round.victim;
          is_chosen =
              find_largest_process-Chosen os args by_score still round.victim round.warned
                round.chosen round.finds round.is_found;
          is_largest = λ name' c' listed' candidate'.
              find_largest_process-largest os args by_score still round.victim round.warned
                round.chosen name' c' round.finds round.is_found listed' candidate';
          is_sent =
              poll_round-Did os args interrupts countdown_ms before wet single unhooked user round;
        }
