-- ===== src/Kill.antt =====
-- The kill and the notifications in kill.c: `notify_spawn_subprocess`, `notify_dbus`, `notify_ext`,
-- `notify_process_killed`, `kill_process_prehook`, `trigger_kernel_oom`, `kill_release`, `kill_wait`
-- and `kill_process`. `pidfd_open` and `process_mrelease` are one system call each.
--
-- The texts of messages and notifications are left out, except for what is passed to a subprocess.
mod Notify
pub mod Dryrun
pub mod Signals
pub mod Aside
pub mod Exits
pub mod Nets
pub mod Waits
pub mod Gone
pub mod Success
pub mod Reaches
pub mod Escalates
mod Tests
unfoldable pub use Notify.*
use Prim.Native.String.{String}
use earlyoom.Prelude.{
  ℕ, zero, suc, ◌+◌, ◌-◌, ◌*◌, Bool, true, false, not, ◌&&◌, ◌||◌, Option, none, some, List, [],
  ◌∷◌, ◌++◌, ltb, ◌==◌, take, if◌then◌else◌,
}
use earlyoom.Prelude.Int.{ℤ, pos, negsuc, neg, ltb_ℤ, leb_ℤ, ◌==ℤ◌}
use earlyoom.Prelude.Text.{Bytes, codes, decimal}
use earlyoom.Double.{Double}
use earlyoom.Args.{Args, sigterm, sigkill}
use earlyoom.Machine.{
  sysrq_trigger_file, clock_gettime, kill, getpgid, pidfd_open, process_mrelease, close, nanosleep,
  sleep, access_write, open_write, write_byte, block_sigchld, fork, poll, waitpid, setenv, execv,
  Os, Machine, Action, pure, exit, replace_process, branch, ◌>>=◌, ◌>>◌, skip, gets, modify,
  set_errno, call, warn, info, failed, etime, eperm,
}
use earlyoom.MemInfo.{MemInfo, parse_meminfo}
use earlyoom.Proc.{is_alive}
use earlyoom.Select.{ProcInfo}

module _ (os : Os) where
  unfoldable pub kill_release : ℤ → ℤ → ℕ → Action ℤ
  kill_release pid pidfd sig = do
    res ← call os (kill pid sig)
    branch (not (res.ret ==ℤ pos 0)) (pure res.ret) (
        branch (ltb_ℤ pidfd (pos 0)) (pure (pos 0)) do
          released ← call os (process_mrelease pidfd)
          branch (not (released.ret ==ℤ pos 0)) (warn os) (info os)
          pure (pos 0))

module _ {W : Type 0} ⦃d : Double W⦄ (os : Os) (args : Args W) where
  open d use {le}

  unfoldable pub notify_process_killed : ProcInfo → Action Unit
  notify_process_killed victim = do
    ok ← may_notify os args.dryrun
    branch (not ok) skip do
      branch args.notify
          (notify_dbus os (
            codes "Low memory! Killing process " ++ decimal victim.pid ++ codes " " ++ victim.name))
          skip
      run_notify_ext os args.notify_ext victim

  unfoldable pub trigger_kernel_oom : Action ℤ
  trigger_kernel_oom = do
    allowed ← call os (access_write sysrq_trigger_file)
    branch (not (allowed.ret ==ℤ pos 0)) (warn os >> pure (negsuc 0)) (
        branch args.dryrun (pure (pos 0)) do
          fd ← call os (open_write sysrq_trigger_file)
          branch (ltb_ℤ fd.ret (pos 0)) (warn os >> pure (negsuc 0)) do
            written ← call os (write_byte fd.ret b'f')
            branch (not (written.ret ==ℤ pos 1))
                (do warn os; call os (close fd.ret); pure (negsuc 0))
                (do
                  call os (close fd.ret)
                  info os
                  branch args.notify
                      (notify_dbus os (codes "Low memory! Triggered kernel OOM killer")) skip
                  pure (pos 0)))

  -- Memory and swap at or below the SIGKILL limits.
  unfoldable pub below_kill_limits : MemInfo W → Bool
  below_kill_limits m =
      le m.mem_available_percent args.mem_kill_percent
      && le m.swap_free_percent args.swap_kill_percent

  -- One look at the memory while waiting: the result of a second kill, or 0, and the signal now.
  unfoldable pub escalate : ℤ → ℤ → ℕ → Action (ℤ × ℕ)
  escalate pid pidfd sig =
      branch (not (sig == sigkill))
        (do
          m ← parse_meminfo os
          branch (below_kill_limits m)
              (do warn os; res ← kill_release os pid pidfd sigkill; pure (res, sigkill))
              (pure (pos 0, sig)))
        (do
          debug ← gets (λ m. m.enable_debug)
          branch debug (do m ← parse_meminfo {W = W} os; info os) skip
          pure (pos 0, sig))

  -- The loop, with so many rounds to go: what `res` is behind it.
  unfoldable pub wait_rounds : ℕ → ℤ → ℤ → ℕ → Action ℤ
  wait_rounds zero pid pidfd sig = do set_errno etime; warn os; pure (negsuc 0)
  wait_rounds (suc left) pid pidfd sig = do
    call os clock_gettime
    (res, sig') ← escalate pid pidfd sig
    branch (not (res ==ℤ pos 0)) (pure res) do
      alive ← is_alive os pid
      branch (not alive) (warn os >> pure res)
          do call os (nanosleep 100_000_000); wait_rounds left pid pidfd sig'

  -- From the first kill to the label `out_close`.
  unfoldable pub kill_and_wait : ℤ → ℤ → ℕ → Action ℤ
  kill_and_wait pid pidfd sig = do
    res ← kill_release os pid pidfd sig
    branch (not (res ==ℤ pos 0) || sig == 0) (pure res)
        do call os clock_gettime; wait_rounds 100 pid pidfd sig

  -- `out_close`: `errno` is as before.
  unfoldable pub close_pidfd : ℤ → Action Unit
  close_pidfd pidfd = branch (ltb_ℤ pidfd (pos 0)) skip do
    saved_errno ← gets (λ m. m.errno)
    r ← call os (close pidfd)
    branch (not (r.ret ==ℤ pos 0)) (warn os) skip
    set_errno saved_errno

  -- "Open the pidfd *before* calling kill()": -1 where there is none.
  unfoldable pub open_pidfd : ℤ → ℕ → Action ℤ
  open_pidfd pid sig =
      branch (args.kill_process_group || sig == 0) (pure (negsuc 0))
        do r ← call os (pidfd_open pid); branch (ltb_ℤ r.ret (pos 0)) (warn os) skip; pure r.ret

  unfoldable pub kill_target : ℤ → ℕ → Action ℤ
  kill_target pid sig = do
    pidfd ← open_pidfd pid sig
    res ← kill_and_wait pid pidfd sig
    close_pidfd pidfd
    pure res

  unfoldable pub kill_wait : ℤ → ℕ → Action ℤ
  kill_wait pid sig = branch (args.dryrun && not (sig == 0)) (warn os >> pure (pos 0)) (
      branch (not args.kill_process_group) (kill_target pid sig) do
        res ← call os (getpgid pid)
        branch (ltb_ℤ res.ret (pos 0)) (pure res.ret) do warn os; kill_target (neg res.ret) sig)

  -- What follows a failed kill.
  unfoldable pub report_failure : ℤ → ℕ → Action Unit
  report_failure res saved_errno = branch (res ==ℤ pos 0) skip do
    warn os
    branch args.notify (notify_dbus os (codes "Error: Failed to kill process")) skip
    branch (saved_errno == eperm) (do warn os; call os (sleep 1); skip) skip

  unfoldable pub kill_process : ℕ → ProcInfo → Action Unit
  kill_process sig victim =
      branch (leb_ℤ victim.pid (pos 0))
        (do
          warn os
          branch args.notify
              (notify_dbus os (codes "Error: Could not find a process to kill. Sleeping 1 second."))
              skip
          call os (sleep 1)
          skip)
        (do
          debug ← gets (λ m. m.enable_debug)
          branch (not (sig == 0) || debug) (warn os) skip
          branch (not (sig == 0)) (run_prehook os args.kill_process_prehook victim) skip
          res ← kill_wait victim.pid sig
          saved_errno ← gets (λ m. m.errno)
          branch (sig == 0) skip do notify_process_killed victim; report_failure res saved_errno)
