-- ===== src/Kill/Nets.antt =====
-- kill.c: the files and descriptors of the kill and the notifications.
use earlyoom.Prelude.{ℕ, zero, suc, ◌+◌, ◌≡◌, refl, arith, true, Bool, Option, none, some, List}
use earlyoom.Prelude.Int.{ℤ, negsuc}
use earlyoom.Prelude.Text.{Bytes}
use earlyoom.Double.{Double}
use earlyoom.Args.{Args}
use earlyoom.Machine.{Event, Reply, Os, modify, pidfd_open, failed}
use earlyoom.Machine.Nets.{
  Weight, weighed, Nets, Nets-pure, Nets-branch, Nets-bind, Nets-close, Nets-pidfd, Stays,
  Stays-pure, Stays-gets, Stays-modify, Stays-bind, Stays-call, Stays-say, stays_rules,
}
use earlyoom.Machine.Nets.Opens.{Nets-weighed, Nets-pidfd_open, Nets-open_write}
use earlyoom.MemInfo.Nets.{parse_meminfo-Nets}
use earlyoom.Proc.{is_alive}
use earlyoom.Proc.Nets.{parse_proc_pid_stat-Nets}
use earlyoom.Select.{ProcInfo}
use earlyoom.Kill.{
  set_environment, run_child, await_child, notify_spawn_subprocess, notify_dbus, notify_ext,
  kill_process_prehook, may_notify, run_notify_ext, run_prehook, notify_process_killed,
  kill_release, trigger_kernel_oom, escalate, wait_rounds, kill_and_wait, close_pidfd, open_pidfd,
  kill_target, kill_wait, report_failure, kill_process,
}

-- `pidfd_open` gives a descriptor or -1.
pub record IsPlain (os : Os) : Type 0 where
  pub fails :
      (t : List Event) (pid : ℤ)
      → failed (os t (pidfd_open pid)) ≡ true
      → (os t (pidfd_open pid)).ret ≡ negsuc 0

-- What is known of one reply.
abbrev IsPlainReply : Reply → Type 0
IsPlainReply r = failed r ≡ true → r.ret ≡ negsuc 0

module _ {w : Weight} {n : ℕ} (os : Os) where
  set_environment-Nets : (victim : Option ProcInfo) → Stays w n (set_environment os victim)
  unfolding set_environment
  set_environment-Nets none = search (stays_rules) depth 14
  set_environment-Nets (some victim) = search (stays_rules) depth 14

  run_child-Nets :
      (script : Bytes) (argv : List Bytes) (victim : Option ProcInfo)
      → Stays w n (run_child os script argv victim)
  unfolding run_child
  run_child-Nets script argv victim = search (stays_rules, set_environment-Nets) depth 20

  kill_release-Nets : (pid pidfd : ℤ) (sig : ℕ) → Stays w n (kill_release os pid pidfd sig)
  unfolding kill_release
  kill_release-Nets pid pidfd sig = search (stays_rules) depth 20

  is_alive-Nets : (pid : ℤ) → Stays w n (is_alive os pid)
  unfolding is_alive
  is_alive-Nets pid = search (stays_rules, parse_proc_pid_stat-Nets) depth 14

  set_prev-Nets : (t : ℕ) → Stays w n (modify (λ m. record m { prev_notify = t }))
  set_prev-Nets t = Stays-modify _ (λ m. refl)

  may_notify-Nets : (dryrun : Bool) → Stays w n (may_notify os dryrun)
  unfolding may_notify
  may_notify-Nets dryrun =
      Nets-branch (λ _. search (stays_rules))
        λ _. Stays-bind (Stays-call os _ tt) λ cur. Stays-bind (Stays-gets _) λ prev.
          Nets-branch (λ _. search (stays_rules))
            λ _.
              Nets-branch (λ _. search (stays_rules))
                λ _. Stays-bind (set_prev-Nets cur.number) λ _. Stays-pure true

  module _ (plain : IsPlain os) where
    await_child-Nets : (pid1 : ℤ) (timeout_ms : ℕ) → Stays w n (await_child os pid1 timeout_ms)
    unfolding await_child
    await_child-Nets pid1 timeout_ms =
        Nets-pidfd_open os IsPlainReply _ pid1 (λ t. plain.fails t pid1)
          (λ r q bad.
            let none = q bad in Nets-branch (λ _. Stays-say os _) λ e. absurd (ground arith))
          λ r q good.
            Nets-branch (λ e. absurd (ground arith))
              λ _. Nets-bind (Stays-call os _ tt) λ ready.
                Nets-bind (search (stays_rules) depth 14)
                  λ _. Nets-bind (Nets-close os _) λ _. Stays-pure tt

    notify_spawn_subprocess-Nets :
        (script : Bytes) (argv : List Bytes) (victim : Option ProcInfo) (timeout_ms : ℕ)
        → Stays w n (notify_spawn_subprocess os script argv victim timeout_ms)
    unfolding notify_spawn_subprocess
    notify_spawn_subprocess-Nets script argv victim timeout_ms =
        search (stays_rules, await_child-Nets, run_child-Nets) depth 20

    notify_dbus-Nets : (body : Bytes) → Stays w n (notify_dbus os body)
    unfolding notify_dbus
    notify_dbus-Nets body = notify_spawn_subprocess-Nets _ _ _ _

    run_notify_ext-Nets :
        (script : Option Bytes) (victim : ProcInfo) → Stays w n (run_notify_ext os script victim)
    unfolding run_notify_ext notify_ext
    run_notify_ext-Nets none victim = search (stays_rules)
    run_notify_ext-Nets (some script) victim = notify_spawn_subprocess-Nets _ _ _ _

    run_prehook-Nets :
        (script : Option Bytes) (victim : ProcInfo) → Stays w n (run_prehook os script victim)
    unfolding run_prehook kill_process_prehook
    run_prehook-Nets none victim = search (stays_rules)
    run_prehook-Nets (some script) victim = notify_spawn_subprocess-Nets _ _ _ _

module _ {w : Weight} {n : ℕ} {W : Type 0} ⦃d : Double W⦄ (os : Os) (args : Args W) where
  escalate-Nets : (pid pidfd : ℤ) (sig : ℕ) → Stays w n (escalate os args pid pidfd sig)
  unfolding escalate
  escalate-Nets pid pidfd sig = search (stays_rules, parse_meminfo-Nets, kill_release-Nets) depth 20

  wait_rounds-Nets :
      (left : ℕ) (pid pidfd : ℤ) (sig : ℕ) → Stays w n (wait_rounds os args left pid pidfd sig)
  unfolding wait_rounds
  wait_rounds-Nets zero pid pidfd sig = search (stays_rules) depth 20
  wait_rounds-Nets (suc left) pid pidfd sig = Stays-bind (Stays-call os _ tt) λ _.
      Stays-bind (escalate-Nets pid pidfd sig)
        λ r. search (stays_rules, is_alive-Nets, wait_rounds-Nets left) depth 20

  kill_and_wait-Nets : (pid pidfd : ℤ) (sig : ℕ) → Stays w n (kill_and_wait os args pid pidfd sig)
  unfolding kill_and_wait
  kill_and_wait-Nets pid pidfd sig =
      search (stays_rules, kill_release-Nets, wait_rounds-Nets) depth 20

  -- A descriptor that is opened is the value.
  open_pidfd-Nets :
      (pid : ℤ) (sig : ℕ) → Nets w n (λ fd. n + weighed w fd) (open_pidfd os args pid sig)
  unfolding open_pidfd
  open_pidfd-Nets pid sig =
      Nets-branch (λ _. Nets-pure (negsuc 0) (omega arith))
        λ _.
          Nets-bind (Nets-pidfd os pid)
            λ r. Nets-bind (search (stays_rules) depth 14) λ _. Nets-pure r.ret refl

  close_pidfd-Nets : (fd : ℤ) → Nets w (n + weighed w fd) (λ _. n) (close_pidfd os args fd)
  unfolding close_pidfd
  close_pidfd-Nets fd =
      Nets-weighed fd (λ bad. Nets-branch (λ _. Stays-pure tt) λ good. absurd (cc))
        λ good.
          Nets-branch (λ bad. absurd (cc))
            λ _.
              Nets-bind (Stays-gets _)
                λ e. Nets-bind (Nets-close os fd) λ r. search (stays_rules) depth 14

module _ {w : Weight} {n : ℕ} {W : Type 0} ⦃d : Double W⦄ (os : Os) (args : Args W) where
  kill_target-Nets : (pid : ℤ) (sig : ℕ) → Stays w n (kill_target os args pid sig)
  unfolding kill_target
  kill_target-Nets pid sig = Nets-bind (open_pidfd-Nets os args pid sig) λ fd.
      Nets-bind (kill_and_wait-Nets os args pid fd sig)
        λ res. Nets-bind (close_pidfd-Nets os args fd) λ _. Stays-pure res

  kill_wait-Nets : (pid : ℤ) (sig : ℕ) → Stays w n (kill_wait os args pid sig)
  unfolding kill_wait
  kill_wait-Nets pid sig = search (stays_rules, kill_target-Nets) depth 20

  module _ (plain : IsPlain os) where
    notify_process_killed-Nets :
        (victim : ProcInfo) → Stays w n (notify_process_killed os args victim)
    unfolding notify_process_killed
    notify_process_killed-Nets victim =
        search
          (stays_rules, may_notify-Nets, notify_dbus-Nets os plain, run_notify_ext-Nets os plain)
          depth 20

    report_failure-Nets : (res : ℤ) (e : ℕ) → Stays w n (report_failure os args res e)
    unfolding report_failure
    report_failure-Nets res e = search (stays_rules, notify_dbus-Nets os plain) depth 20

    pub kill_process-Nets :
        (sig : ℕ) (victim : ProcInfo) → Stays w n (kill_process os args sig victim)
    unfolding kill_process
    kill_process-Nets sig victim =
        search
          (
            stays_rules,
            notify_dbus-Nets os plain,
            run_prehook-Nets os plain,
            kill_wait-Nets,
            notify_process_killed-Nets,
            report_failure-Nets,
          )
          depth 24

    pub trigger_kernel_oom-Nets : Stays w n (trigger_kernel_oom os args)
    unfolding trigger_kernel_oom
    trigger_kernel_oom-Nets = Stays-bind (Stays-call os _ tt) λ allowed.
        Nets-branch (λ _. search (stays_rules) depth 14)
          λ _.
            Nets-branch (λ _. Stays-pure _)
              λ _.
                Nets-open_write os (λ fd. search (stays_rules) depth 14)
                  (λ fd. Nets-bind (Stays-call os _ tt) λ written.
                    Nets-branch
                      (λ _.
                        Nets-bind (Stays-say os _)
                          λ _. Nets-bind (Nets-close os _) λ _. Stays-pure _)
                      λ _.
                        Nets-bind (Nets-close os _)
                          λ _. search (stays_rules, notify_dbus-Nets os plain) depth 14)
                  _
