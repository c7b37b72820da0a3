-- ===== src/Kill/Reaches.antt =====
-- That the signal is sent.
use earlyoom.Prelude.{ℕ, ◌≡◌, arith, false, Option, none, some}
use earlyoom.Prelude.Int.{ℤ, pos, ◌<ℤ◌}
use earlyoom.Prelude.Text.{Bytes}
use earlyoom.Double.{Double}
use earlyoom.Args.{Args}
use earlyoom.Machine.{kill, Os}
use earlyoom.Machine.Calls.{
  Calls-bind, Calls-pure, Calls-call, Calls-branch, Calls-gets, calls_rules,
}
use earlyoom.Machine.Sends.{Calls-Any, Sends, Sends-branch, Sends-call, Sends-first, Sends-then}
use earlyoom.Machine.Passes.{
  Passes, Passes-pure, Passes-branch, Passes-gets, Passes-say, passes_rules,
}
use earlyoom.Select.{ProcInfo}
use earlyoom.Kill.{
  kill_release, open_pidfd, run_prehook, kill_and_wait, kill_target, kill_wait, kill_process,
}
use earlyoom.Kill.Aside.{close_pidfd-Calls, notify_process_killed-Calls, report_failure-Calls}
use earlyoom.Kill.Signals.{wait_rounds-Calls}

module _ (os : Os) (pid : ℤ) (sig : ℕ) where
  pub kill_release-Sends : (fd : ℤ) → Sends (kill pid sig) (kill_release os pid fd sig)
  unfolding kill_release
  kill_release-Sends fd =
      Sends-first (Sends-call os (kill pid sig)) λ res. search (calls_rules) depth 14

  module _ {W : Type 0} ⦃d : Double W⦄ (args : Args W) where
    kill_and_wait-Sends : (fd : ℤ) → Sends (kill pid sig) (kill_and_wait os args pid fd sig)
    unfolding kill_and_wait
    kill_and_wait-Sends fd = Sends-first (kill_release-Sends fd) λ res.
        Calls-branch (λ _. Calls-pure res)
          λ _.
            Calls-bind (Calls-call os _ tt)
              λ _. Calls-Any (wait_rounds-Calls (λ p. Unit) sig os pid tt args 100 fd sig)

    pub open_pidfd-Passes : Passes (open_pidfd os args pid sig)
    unfolding open_pidfd
    open_pidfd-Passes = search (passes_rules) depth 14

    kill_target-Sends : Sends (kill pid sig) (kill_target os args pid sig)
    unfolding kill_target
    kill_target-Sends = Sends-then open_pidfd-Passes λ fd.
        Sends-first (kill_and_wait-Sends fd)
          λ res. Calls-bind (Calls-Any (close_pidfd-Calls os args fd)) λ _. Calls-pure res

    pub kill_wait-Sends :
        args.dryrun ≡ false
        → args.kill_process_group ≡ false
        → Sends (kill pid sig) (kill_wait os args pid sig)
    unfolding kill_wait
    kill_wait-Sends wet single =
        Sends-branch (λ e. absurd (ground arith))
          λ _. Sends-branch (λ _. kill_target-Sends) λ e. absurd (ground arith)

module _ {W : Type 0} ⦃d : Double W⦄ (os : Os) (args : Args W) where
  no_prehook-Passes :
      (script : Option Bytes) (victim : ProcInfo)
      → script ≡ none
      → Passes (run_prehook os script victim)
  unfolding run_prehook
  no_prehook-Passes none victim e = Passes-pure tt
  no_prehook-Passes (some script) victim e = absurd (ground arith)

  -- A victim that was found is sent the signal, whatever the kernel answers, unless --dryrun, -g or
  -- -P is given.
  pub kill_process-Sends :
      (sig : ℕ) (victim : ProcInfo)
      → args.dryrun ≡ false
      → args.kill_process_group ≡ false
      → args.kill_process_prehook ≡ none
      → pos 0 <ℤ victim.pid
      → Sends (kill victim.pid sig) (kill_process os args sig victim)
  unfolding kill_process
  kill_process-Sends sig victim wet single unhooked found =
      Sends-branch (λ e. absurd (ground arith))
        λ _. Sends-then (Passes-gets _) λ debug.
          Sends-then (Passes-branch (λ _. Passes-say os _) λ _. Passes-pure tt) λ _.
            Sends-then
              (Passes-branch (λ _. no_prehook-Passes _ victim unhooked) λ _. Passes-pure tt)
              λ _. Sends-first (kill_wait-Sends os victim.pid sig args wet single) λ res.
                Calls-bind (Calls-gets _) λ saved_errno.
                  Calls-branch (λ _. Calls-pure tt)
                    λ _.
                      Calls-bind (Calls-Any (notify_process_killed-Calls os args victim))
                        λ _. report_failure-Calls os args (λ c h. tt) tt res saved_errno
