-- ===== src/Startup.antt =====
-- main.c, between the options and the main loop: `startup_selftests`, `set_oom_score_adj`, the
-- priority, and the locking of the memory.
pub mod Paths
pub mod Harmless
pub mod Exits
pub mod Nets
mod Tests
use earlyoom.Prelude.{
  ℕ, Bool, true, false, not, ◌||◌, ◌==◌, Option, none, some, [], ◌∷◌, if◌then◌else◌,
}
use earlyoom.Prelude.Int.{ℤ, pos, negsuc, neg, ltb_ℤ, ◌==ℤ◌}
use earlyoom.Prelude.Text.{Bytes}
use earlyoom.Double.{Double}
use earlyoom.Args.{Args}
use earlyoom.Machine.{
  oom_score_adj_file, access_exec, getpid, fopen_write, fprintf_int, fclose, set_priority, mlockall,
  Os, Action, pure, branch, ◌>>=◌, ◌>>◌, skip, gets, call, warn, info, failed,
}
use earlyoom.Select.{find_largest_process}
use earlyoom.Kill.{trigger_kernel_oom, kill_process}

-- `path[0] == '/'`
unfoldable pub is_absolute : Bytes → Bool
is_absolute [] = false
is_absolute (c ∷ s) = c == b'/'

module _ (os : Os) where
  -- The program of -N or -P: disabled where its path is not absolute, with a warning where it
  -- cannot be run.
  unfoldable pub check_path : Option Bytes → Action (Option Bytes)
  check_path none = pure none
  check_path (some path) = branch (not (is_absolute path)) (warn os >> pure none) (do
    r ← call os (access_exec path)
    branch (not (r.ret ==ℤ pos 0)) (warn os) skip
    pure (some path))

  -- 0, or an error number.
  unfoldable pub set_oom_score_adj : ℤ → Action ℤ
  set_oom_score_adj oom_score_adj = do
    self ← call os getpid
    f ← call os (fopen_write (oom_score_adj_file self.ret))
    branch (failed f) (pure (negsuc 0)) do
      ret1 ← call os (fprintf_int (oom_score_adj_file self.ret) oom_score_adj)
      ret2 ← call os (fclose (oom_score_adj_file self.ret))
      e ← gets (λ m. m.errno)
      pure (
          if ltb_ℤ ret1.ret (pos 0)
          then neg ret1.ret
          else if not (ret2.ret ==ℤ pos 0)
          then pos e
          else pos 0)

  -- -p
  unfoldable pub raise_priority : Action Unit
  raise_priority = do
    prio ← call os set_priority
    branch (not (prio.ret ==ℤ pos 0)) (warn os) skip
    ret ← set_oom_score_adj (negsuc 99)
    branch (not (ret ==ℤ pos 0)) (warn os) skip
    branch (not (prio.ret ==ℤ pos 0) || not (ret ==ℤ pos 0)) skip (info os)

  -- Without MCL_ONFAULT where the kernel does not know it.
  unfoldable pub lock_memory : Action Unit
  lock_memory = do
    first ← call os (mlockall true)
    err ← branch (not (first.ret ==ℤ pos 0)) (call os (mlockall false)) (pure first)
    branch (not (err.ret ==ℤ pos 0)) (warn os) skip

module _ {W : Type 0} ⦃d : Double W⦄ (os : Os) where
  -- Whether the kernel's OOM killer may be triggered, or a victim is looked for and sent signal 0.
  unfoldable pub test_kill : Args W → Action (Args W)
  test_kill args =
      branch args.kernel_oom
        (do
          ret ← trigger_kernel_oom os (record args { dryrun = true })
          branch (not (ret ==ℤ pos 0)) (warn os >> pure (record args { kernel_oom = false }))
              (pure args))
        (do victim ← find_largest_process os args; kill_process os args 0 victim; pure args)

  unfoldable pub startup_selftests : Args W → Action (Args W)
  startup_selftests args = do
    tested ← test_kill args
    notify_ext ← check_path os tested.notify_ext
    prehook ← check_path os tested.kill_process_prehook
    pure (record tested { notify_ext = notify_ext; kill_process_prehook = prehook })
