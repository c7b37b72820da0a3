-- ===== src/Kill/Exits.antt =====
-- kill.c: the statuses with which the kill and the notifications may end the process.
use earlyoom.Prelude.Int.{ℤ}
use earlyoom.Prelude.{refl, zero, suc, true, Bool, Option, none, some, ℕ, List}
use earlyoom.Prelude.Text.{Bytes}
use earlyoom.Double.{Double}
use earlyoom.Args.{Args}
use earlyoom.Machine.{Os, exit, modify}
use earlyoom.Machine.Exits.{
  Exits, Exits-exit, Exits-modify, Exits-branch, Exits-bind, Exits-call, Exits-gets, Exits-pure,
  IsStatus, exits_rules,
}
use earlyoom.MemInfo.Exits.{parse_meminfo-Exits}
use earlyoom.Proc.Exits.{is_alive-Exits}
use earlyoom.Select.{ProcInfo}
use earlyoom.Kill.{
  set_environment, run_child, await_child, notify_spawn_subprocess, notify_dbus, notify_ext,
  kill_process_prehook, kill_release, escalate, wait_rounds, kill_and_wait, kill_target,
  trigger_kernel_oom, may_notify, run_notify_ext, run_prehook, notify_process_killed, close_pidfd,
  open_pidfd, report_failure, kill_wait, kill_process,
}

module _ (os : Os) where
  child_fails : Exits {A = Unit} IsStatus (exit 1)
  child_fails = Exits-exit 1 refl

  set_environment-Exits : (victim : Option ProcInfo) → Exits IsStatus (set_environment os victim)
  unfolding set_environment
  set_environment-Exits none = search (exits_rules) depth 14
  set_environment-Exits (some victim) = search (exits_rules) depth 14

  notify_spawn_subprocess-Exits :
      (script : Bytes) (argv : List Bytes) (victim : Option ProcInfo) (timeout_ms : ℕ)
      → Exits IsStatus (notify_spawn_subprocess os script argv victim timeout_ms)
  unfolding notify_spawn_subprocess await_child run_child
  notify_spawn_subprocess-Exits script argv victim timeout_ms =
      search (exits_rules, set_environment-Exits, child_fails) depth 20

  pub notify_dbus-Exits : (body : Bytes) → Exits IsStatus (notify_dbus os body)
  unfolding notify_dbus
  notify_dbus-Exits body = notify_spawn_subprocess-Exits _ _ _ _

  run_notify_ext-Exits :
      (script : Option Bytes) (victim : ProcInfo) → Exits IsStatus (run_notify_ext os script victim)
  unfolding run_notify_ext notify_ext
  run_notify_ext-Exits none victim = search (exits_rules)
  run_notify_ext-Exits (some script) victim = notify_spawn_subprocess-Exits _ _ _ _

  pub run_prehook-Exits :
      (script : Option Bytes) (victim : ProcInfo) → Exits IsStatus (run_prehook os script victim)
  unfolding run_prehook kill_process_prehook
  run_prehook-Exits none victim = search (exits_rules)
  run_prehook-Exits (some script) victim = notify_spawn_subprocess-Exits _ _ _ _

  set_prev-Exits : (t : ℕ) → Exits IsStatus (modify (λ m. record m { prev_notify = t }))
  set_prev-Exits t = Exits-modify _

  may_notify-Exits : (dryrun : Bool) → Exits IsStatus (may_notify os dryrun)
  unfolding may_notify
  may_notify-Exits dryrun =
      Exits-branch (λ _. search (exits_rules))
        λ _. Exits-bind (Exits-call os _) λ cur. Exits-bind (Exits-gets _) λ prev.
          Exits-branch (λ _. search (exits_rules))
            λ _.
              Exits-branch (λ _. search (exits_rules))
                λ _. Exits-bind (set_prev-Exits cur.number) λ _. Exits-pure true

module _ {W : Type 0} ⦃d : Double W⦄ (os : Os) (args : Args W) where
  pub notify_process_killed-Exits :
      (victim : ProcInfo) → Exits IsStatus (notify_process_killed os args victim)
  unfolding notify_process_killed
  notify_process_killed-Exits victim =
      search (exits_rules, may_notify-Exits, notify_dbus-Exits, run_notify_ext-Exits) depth 20

  pub close_pidfd-Exits : (pidfd : ℤ) → Exits IsStatus (close_pidfd os args pidfd)
  unfolding close_pidfd
  close_pidfd-Exits pidfd = search (exits_rules) depth 20

  pub open_pidfd-Exits : (pid : ℤ) (sig : ℕ) → Exits IsStatus (open_pidfd os args pid sig)
  unfolding open_pidfd
  open_pidfd-Exits pid sig = search (exits_rules) depth 20

  kill_release-Exits : (pid pidfd : ℤ) (sig : ℕ) → Exits IsStatus (kill_release os pid pidfd sig)
  unfolding kill_release
  kill_release-Exits pid pidfd sig = search (exits_rules) depth 20

  escalate-Exits : (pid pidfd : ℤ) (sig : ℕ) → Exits IsStatus (escalate os args pid pidfd sig)
  unfolding escalate
  escalate-Exits pid pidfd sig =
      search (exits_rules, parse_meminfo-Exits, kill_release-Exits) depth 20

  wait_rounds-Exits :
      (left : ℕ) (pid pidfd : ℤ) (sig : ℕ) → Exits IsStatus (wait_rounds os args left pid pidfd sig)
  unfolding wait_rounds
  wait_rounds-Exits zero pid pidfd sig = search (exits_rules) depth 20
  wait_rounds-Exits (suc left) pid pidfd sig = Exits-bind (Exits-call os _) λ _.
      Exits-bind (escalate-Exits pid pidfd sig)
        λ r. search (exits_rules, is_alive-Exits, wait_rounds-Exits left) depth 20

  kill_and_wait-Exits :
      (pid pidfd : ℤ) (sig : ℕ) → Exits IsStatus (kill_and_wait os args pid pidfd sig)
  unfolding kill_and_wait
  kill_and_wait-Exits pid pidfd sig =
      search (exits_rules, kill_release-Exits, wait_rounds-Exits) depth 20

  kill_wait-Exits : (pid : ℤ) (sig : ℕ) → Exits IsStatus (kill_wait os args pid sig)
  unfolding kill_wait kill_target
  kill_wait-Exits pid sig =
      search (exits_rules, open_pidfd-Exits, kill_and_wait-Exits, close_pidfd-Exits) depth 20

  report_failure-Exits : (res : ℤ) (e : ℕ) → Exits IsStatus (report_failure os args res e)
  unfolding report_failure
  report_failure-Exits res e = search (exits_rules, notify_dbus-Exits) depth 20

  pub kill_process-Exits :
      (sig : ℕ) (victim : ProcInfo) → Exits IsStatus (kill_process os args sig victim)
  unfolding kill_process
  kill_process-Exits sig victim =
      search
        (
          exits_rules, notify_dbus-Exits, run_prehook-Exits, kill_wait-Exits,
          notify_process_killed-Exits, report_failure-Exits,
        )
        depth 24

  pub trigger_kernel_oom-Exits : Exits IsStatus (trigger_kernel_oom os args)
  unfolding trigger_kernel_oom
  trigger_kernel_oom-Exits = search (exits_rules, notify_dbus-Exits) depth 24
