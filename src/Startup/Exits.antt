-- ===== src/Startup/Exits.antt =====
-- main.c: the statuses with which what comes before the main loop may end the process.
use earlyoom.Prelude.{Option, none, some}
use earlyoom.Prelude.Text.{Bytes}
use earlyoom.Double.{Double}
use earlyoom.Args.{Args}
use earlyoom.Machine.{Os}
use earlyoom.Machine.Exits.{Exits, IsStatus, exits_rules}
use earlyoom.Select.Exits.{find_largest_process-Exits}
use earlyoom.Kill.Exits.{kill_process-Exits, trigger_kernel_oom-Exits}
use earlyoom.Startup.{
  check_path, set_oom_score_adj, raise_priority, lock_memory, test_kill, startup_selftests,
}

module _ (os : Os) where
  check_path-Exits : (path : Option Bytes) → Exits IsStatus (check_path os path)
  unfolding check_path
  check_path-Exits none = search (exits_rules) depth 14
  check_path-Exits (some path) = search (exits_rules) depth 14

  pub raise_priority-Exits : Exits IsStatus (raise_priority os)
  unfolding raise_priority set_oom_score_adj
  raise_priority-Exits = search (exits_rules) depth 20

  pub lock_memory-Exits : Exits IsStatus (lock_memory os)
  unfolding lock_memory
  lock_memory-Exits = search (exits_rules) depth 20

module _ {W : Type 0} ⦃d : Double W⦄ (os : Os) (args : Args W) where
  test_kill-Exits : Exits IsStatus (test_kill os args)
  unfolding test_kill
  test_kill-Exits =
      search (exits_rules, trigger_kernel_oom-Exits, find_largest_process-Exits, kill_process-Exits)
        depth 20

  pub startup_selftests-Exits : Exits IsStatus (startup_selftests os args)
  unfolding startup_selftests
  startup_selftests-Exits = search (exits_rules, test_kill-Exits, check_path-Exits) depth 20
