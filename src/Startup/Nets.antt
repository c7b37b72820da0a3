-- ===== src/Startup/Nets.antt =====
-- main.c: the files and descriptors of what comes before the main loop.
use earlyoom.Prelude.{true, ℕ, Option, none, some}
use earlyoom.Prelude.Int.{ℤ}
use earlyoom.Prelude.Text.{Bytes}
use earlyoom.Double.{Double}
use earlyoom.Args.{Args}
use earlyoom.Machine.{Os}
use earlyoom.Machine.Nets.{
  Weight, Nets-bind, Stays-bind, Stays-call, Stays-pure, Nets-fclose, Stays, stays_rules,
}
use earlyoom.Machine.Nets.Opens.{Nets-fopen_write}
use earlyoom.Select.Nets.{find_largest_process-Nets}
use earlyoom.Kill.Nets.{IsPlain, kill_process-Nets, trigger_kernel_oom-Nets}
use earlyoom.Startup.{
  check_path, set_oom_score_adj, raise_priority, lock_memory, test_kill, startup_selftests,
}

module _ {w : Weight} {n : ℕ} (os : Os) where
  check_path-Nets : (path : Option Bytes) → Stays w n (check_path os path)
  unfolding check_path
  check_path-Nets none = search (stays_rules) depth 14
  check_path-Nets (some path) = search (stays_rules) depth 14

  set_oom_score_adj-Nets : (adj : ℤ) → Stays w n (set_oom_score_adj os adj)
  unfolding set_oom_score_adj
  set_oom_score_adj-Nets adj = Stays-bind (Stays-call os _ tt) λ self.
      Nets-fopen_write os (λ f. Stays-pure _) _
        (λ f.
          Nets-bind (Stays-call os _ tt)
            λ ret1. Nets-bind (Nets-fclose os _) λ ret2. search (stays_rules) depth 14)

  pub raise_priority-Nets : Stays w n (raise_priority os)
  unfolding raise_priority
  raise_priority-Nets = search (stays_rules, set_oom_score_adj-Nets) depth 20

  pub lock_memory-Nets : Stays w n (lock_memory os)
  unfolding lock_memory
  lock_memory-Nets = search (stays_rules) depth 20

module _ {w : Weight} {n : ℕ} {W : Type 0} ⦃d : Double W⦄ (os : Os) (args : Args W)
    (plain : IsPlain os) where
  test_kill-Nets : Stays w n (test_kill os args)
  unfolding test_kill
  test_kill-Nets =
      search
        (
          stays_rules,
          trigger_kernel_oom-Nets os (record args { dryrun = true }) plain,
          find_largest_process-Nets,
          kill_process-Nets os args plain,
        )
        depth 20

  pub startup_selftests-Nets : Stays w n (startup_selftests os args)
  unfolding startup_selftests
  startup_selftests-Nets = search (stays_rules, test_kill-Nets, check_path-Nets) depth 20
