-- ===== src/Kill/Notify.antt =====
-- The subprocesses of kill.c: `notify_spawn_subprocess`, `notify_dbus`, `notify_ext`,
-- `kill_process_prehook`, and the first half of `notify_process_killed`.
use earlyoom.Prelude.{
  ℕ, ◌+◌, Bool, true, false, not, Option, none, some, List, [], ◌∷◌, ◌++◌, ltb, take,
}
use earlyoom.Prelude.Int.{ℤ, pos, negsuc, leb_ℤ, ◌==ℤ◌}
use earlyoom.Prelude.Text.{Bytes, codes, decimal}
use earlyoom.Machine.{
  clock_gettime, pidfd_open, close, block_sigchld, fork, poll, waitpid, setenv, execv, Os, Action,
  pure, exit, replace_process, branch, ◌>>=◌, ◌>>◌, skip, gets, modify, call, warn, failed,
}
use earlyoom.Select.{ProcInfo}

abbrev pub notify_ratelimit : ℕ
notify_ratelimit = 1

abbrev pub prehook_startup_sleep_ms : ℕ
prehook_startup_sleep_ms = 200

module _ (os : Os) where
  -- The variables of the child's environment.
  unfoldable pub set_environment : Option ProcInfo → Action Unit
  set_environment none = skip
  set_environment (some victim) = do
    call os (setenv (codes "EARLYOOM_PID") (decimal victim.pid))
    call os (setenv (codes "EARLYOOM_UID") (decimal victim.uid))
    call os (setenv (codes "EARLYOOM_NAME") victim.name)
    call os (setenv (codes "EARLYOOM_CMDLINE") victim.cmdline)
    skip

  -- The child's side of the fork: it runs the script, or ends.
  unfoldable pub run_child : Bytes → List Bytes → Option ProcInfo → Action Unit
  run_child script argv victim = do
    call os (block_sigchld false)
    set_environment victim
    r ← call os (execv script argv)
    branch (failed r) (warn os >> exit 1) replace_process

  -- The parent's side, behind the fork.
  unfoldable pub await_child : ℤ → ℕ → Action Unit
  await_child pid1 timeout_ms = do
    pidfd ← call os (pidfd_open pid1)
    branch (pidfd.ret ==ℤ negsuc 0) (warn os) do
      ready ← call os (poll pidfd.ret timeout_ms)
      branch (ready.ret ==ℤ negsuc 0) (warn os) (
          branch (ready.ret ==ℤ pos 0) (branch (ltb 0 timeout_ms) (warn os) skip)
            (do ret ← call os (waitpid pid1); branch (leb_ℤ ret.ret (pos 0)) (warn os) skip))
      call os (close pidfd.ret)
      skip

  unfoldable pub notify_spawn_subprocess : Bytes → List Bytes → Option ProcInfo → ℕ → Action Unit
  notify_spawn_subprocess script argv victim timeout_ms = do
    call os (block_sigchld true)
    pid1 ← call os fork
    branch (pid1.ret ==ℤ negsuc 0) (do warn os; call os (block_sigchld false); skip)
        (branch (not (pid1.ret ==ℤ pos 0))
          (do await_child pid1.ret timeout_ms; call os (block_sigchld false); skip)
          (run_child script argv victim))

  unfoldable pub notify_dbus : Bytes → Action Unit
  notify_dbus body =
      notify_spawn_subprocess (codes "/usr/bin/dbus-send")
        (codes "dbus-send"
          ∷ codes "--system"
          ∷ codes "/"
          ∷ codes "net.nuetzlich.SystemNotifications.Notify"
          ∷ codes "string:earlyoom"
          ∷ take 1023 (codes "string:" ++ body)
          ∷ [])
        none 0

  unfoldable pub notify_ext : Bytes → ProcInfo → Action Unit
  notify_ext script victim = notify_spawn_subprocess script (script ∷ []) (some victim) 0

  unfoldable pub kill_process_prehook : Bytes → ProcInfo → Action Unit
  kill_process_prehook script victim =
      notify_spawn_subprocess script (script ∷ []) (some victim) prehook_startup_sleep_ms

  -- Whether a notification may be sent: at most one in a second under --dryrun.
  unfoldable pub may_notify : Bool → Action Bool
  may_notify dryrun = branch (not dryrun) (pure true) do
    cur ← call os clock_gettime
    prev ← gets (λ m. m.prev_notify)
    branch (cur.ret ==ℤ negsuc 0) (warn os >> pure false) (
        branch (ltb cur.number (prev + notify_ratelimit)) (pure false)
          (modify (λ m. record m { prev_notify = cur.number }) >> pure true))

  unfoldable pub run_notify_ext : Option Bytes → ProcInfo → Action Unit
  run_notify_ext none victim = skip
  run_notify_ext (some script) victim = notify_ext script victim

  unfoldable pub run_prehook : Option Bytes → ProcInfo → Action Unit
  run_prehook none victim = skip
  run_prehook (some script) victim = kill_process_prehook script victim
