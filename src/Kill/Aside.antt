-- ===== src/Kill/Aside.antt =====
-- kill.c: the calls of the notifications, and of what stands around the kill.
use earlyoom.Prelude.Int.{ℤ, pos, ltb_ℤ}
use earlyoom.Prelude.{refl, true, arith, ◌≡◌, Bool, Option, none, some, ℕ, List}
use earlyoom.Prelude.Text.{Bytes}
use earlyoom.Double.{Double}
use earlyoom.Args.{Args}
use earlyoom.Machine.{Call, sleep, print, warn_level, Os, Action, modify, call, warn, skip, ◌>>◌}
use earlyoom.Machine.Calls.{
  Calls, Calls-weaken, Calls-modify, Calls-branch, Calls-bind, Calls-call, Calls-say, Calls-gets,
  Calls-pure, calls_rules,
}
use earlyoom.Machine.Quiet.{IsAside, IsReading-IsAside}
use earlyoom.MemInfo.{parse_meminfo}
use earlyoom.MemInfo.Reads.{parse_meminfo-Calls}
use earlyoom.Select.{ProcInfo}
use earlyoom.Kill.{
  set_environment, run_child, await_child, notify_spawn_subprocess, notify_dbus, notify_ext,
  kill_process_prehook, may_notify, run_notify_ext, run_prehook, notify_process_killed, close_pidfd,
  open_pidfd, report_failure, kill_wait, kill_process,
}

module _ (os : Os) where
  set_environment-Calls : (victim : Option ProcInfo) → Calls IsAside (set_environment os victim)
  unfolding set_environment
  set_environment-Calls none = search (calls_rules) depth 14
  set_environment-Calls (some victim) = search (calls_rules) depth 14

  notify_spawn_subprocess-Calls :
      (script : Bytes) (argv : List Bytes) (victim : Option ProcInfo) (timeout_ms : ℕ)
      → Calls IsAside (notify_spawn_subprocess os script argv victim timeout_ms)
  unfolding notify_spawn_subprocess await_child run_child
  notify_spawn_subprocess-Calls script argv victim timeout_ms =
      search (calls_rules, set_environment-Calls) depth 20

  pub notify_dbus-Calls : (body : Bytes) → Calls IsAside (notify_dbus os body)
  unfolding notify_dbus
  notify_dbus-Calls body = notify_spawn_subprocess-Calls _ _ _ _

  run_notify_ext-Calls :
      (script : Option Bytes) (victim : ProcInfo) → Calls IsAside (run_notify_ext os script victim)
  unfolding run_notify_ext notify_ext
  run_notify_ext-Calls none victim = search (calls_rules)
  run_notify_ext-Calls (some script) victim = notify_spawn_subprocess-Calls _ _ _ _

  pub run_prehook-Calls :
      (script : Option Bytes) (victim : ProcInfo) → Calls IsAside (run_prehook os script victim)
  unfolding run_prehook kill_process_prehook
  run_prehook-Calls none victim = search (calls_rules)
  run_prehook-Calls (some script) victim = notify_spawn_subprocess-Calls _ _ _ _

  set_prev-Calls : (t : ℕ) → Calls IsAside (modify (λ m. record m { prev_notify = t }))
  set_prev-Calls t = Calls-modify _ (λ m. refl)

  may_notify-Calls : (dryrun : Bool) → Calls IsAside (may_notify os dryrun)
  unfolding may_notify
  may_notify-Calls dryrun =
      Calls-branch (λ _. search (calls_rules))
        λ _. Calls-bind (Calls-call os _ tt) λ cur. Calls-bind (Calls-gets _) λ prev.
          Calls-branch (λ _. search (calls_rules))
            λ _.
              Calls-branch (λ _. search (calls_rules))
                λ _. Calls-bind (set_prev-Calls cur.number) λ _. Calls-pure true

module _ {W : Type 0} ⦃d : Double W⦄ (os : Os) (args : Args W) where
  pub notify_process_killed-Calls :
      (victim : ProcInfo) → Calls IsAside (notify_process_killed os args victim)
  unfolding notify_process_killed
  notify_process_killed-Calls victim =
      search (calls_rules, may_notify-Calls, notify_dbus-Calls, run_notify_ext-Calls) depth 20

  pub parse_meminfo-IsAside : Calls IsAside (parse_meminfo {W = W} os)
  parse_meminfo-IsAside = Calls-weaken IsReading-IsAside (parse_meminfo-Calls os)

  pub close_pidfd-Calls : (pidfd : ℤ) → Calls IsAside (close_pidfd os args pidfd)
  unfolding close_pidfd
  close_pidfd-Calls pidfd = search (calls_rules) depth 20

  pub open_pidfd-Calls : (pid : ℤ) (sig : ℕ) → Calls IsAside (open_pidfd os args pid sig)
  unfolding open_pidfd
  open_pidfd-Calls pid sig = search (calls_rules) depth 20

-- `kill_process` does to other processes what `kill_wait` does.
module _ {W : Type 0} ⦃d : Double W⦄ (os : Os) (args : Args W) {P : Call → Type 0} where
  module _ (aside : (c : Call) → IsAside c → P c) (rest : P (sleep 1)) where
    Calls-aside : {A : Type 0} {x : Action A} → Calls IsAside x → Calls P x
    Calls-aside cx = Calls-weaken aside cx

    Calls-warn : Calls P (warn os)
    Calls-warn = Calls-say os _ (aside (print warn_level) tt)

    Calls-sleep : Calls P (call os (sleep 1) >> skip)
    Calls-sleep = Calls-bind (Calls-call os _ rest) λ _. Calls-pure tt

    pub report_failure-Calls : (res : ℤ) (e : ℕ) → Calls P (report_failure os args res e)
    unfolding report_failure
    report_failure-Calls res e =
        search (calls_rules, Calls-warn, Calls-sleep, Calls-aside, notify_dbus-Calls) depth 20

    pub kill_process-Calls :
        (sig : ℕ) (victim : ProcInfo)
        → (ltb_ℤ (pos 0) victim.pid ≡ true → Calls P (kill_wait os args victim.pid sig))
        → Calls P (kill_process os args sig victim)
    unfolding kill_process
    kill_process-Calls sig victim kills =
        Calls-branch
          (λ _. Calls-bind Calls-warn λ _.
            Calls-bind (Calls-branch (λ _. Calls-aside (notify_dbus-Calls os _)) λ _. Calls-pure tt)
              λ _. Calls-sleep)
          (λ e. Calls-bind (Calls-gets _) λ debug.
            Calls-bind (Calls-branch (λ _. Calls-warn) λ _. Calls-pure tt) λ _.
              Calls-bind
                (Calls-branch (λ _. Calls-aside (run_prehook-Calls os _ victim)) λ _. Calls-pure tt)
                λ _. Calls-bind (kills (ground arith)) λ res.
                  Calls-bind (Calls-gets _) λ saved_errno.
                    Calls-branch (λ _. Calls-pure tt)
                      λ _.
                        Calls-bind (Calls-aside (notify_process_killed-Calls os args victim))
                          λ _. report_failure-Calls res saved_errno)
