-- ===== src/Startup/Harmless.antt =====
-- main.c: the calls of the self-tests.
use earlyoom.Prelude.{refl, true, Option, none, some}
use earlyoom.Prelude.Text.{Bytes}
use earlyoom.Double.{Double}
use earlyoom.Args.{Args}
use earlyoom.Machine.{Os}
use earlyoom.Machine.Calls.{Calls, Calls-weaken, calls_rules}
use earlyoom.Machine.Quiet.{IsReading-IsAside}
use earlyoom.Select.{ProcInfo, find_largest_process}
use earlyoom.Select.Reads.{find_largest_process-Calls}
use earlyoom.Kill.{kill_process, trigger_kernel_oom}
use earlyoom.Kill.Aside.{kill_process-Calls}
use earlyoom.Kill.Dryrun.{
  IsHarmless, IsAside-IsHarmless, kill_wait_probe, trigger_kernel_oom-IsHarmless,
}
use earlyoom.Startup.{
  check_path, set_oom_score_adj, raise_priority, lock_memory, test_kill, startup_selftests,
}

module _ (os : Os) where
  check_path-Calls : (path : Option Bytes) → Calls IsHarmless (check_path os path)
  unfolding check_path
  check_path-Calls none = search (calls_rules) depth 14
  check_path-Calls (some path) = search (calls_rules) depth 14

  pub raise_priority-Calls : Calls IsHarmless (raise_priority os)
  unfolding raise_priority set_oom_score_adj
  raise_priority-Calls = search (calls_rules) depth 20

  pub lock_memory-Calls : Calls IsHarmless (lock_memory os)
  unfolding lock_memory
  lock_memory-Calls = search (calls_rules) depth 20

module _ {W : Type 0} ⦃d : Double W⦄ (os : Os) (args : Args W) where
  -- Signal 0 only asks.
  kill_process_probe : (victim : ProcInfo) → Calls IsHarmless (kill_process os args 0 victim)
  kill_process_probe victim =
      kill_process-Calls os args IsAside-IsHarmless tt 0 victim
        λ _. kill_wait_probe os args victim.pid

  find-Calls : Calls IsHarmless (find_largest_process os args)
  find-Calls =
      Calls-weaken (λ c h. IsAside-IsHarmless c (IsReading-IsAside c h))
        (find_largest_process-Calls os args)

  trigger_probe : Calls IsHarmless (trigger_kernel_oom os (record args { dryrun = true }))
  trigger_probe = trigger_kernel_oom-IsHarmless os (record args { dryrun = true }) refl

  test_kill-Calls : Calls IsHarmless (test_kill os args)
  unfolding test_kill
  test_kill-Calls = search (calls_rules, trigger_probe, find-Calls, kill_process_probe) depth 20

  -- Whatever the settings are, the self-tests kill no process and do not trigger the kernel's OOM
  -- killer.
  pub startup_selftests-IsHarmless : Calls IsHarmless (startup_selftests os args)
  unfolding startup_selftests
  startup_selftests-IsHarmless = search (calls_rules, test_kill-Calls, check_path-Calls) depth 20
