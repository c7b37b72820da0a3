-- ===== src/Kill/Dryrun.antt =====
-- kill.c under --dryrun: its calls.
use earlyoom.Prelude.{refl, arith, ◌≡◌, true, false, Bool, ℕ, zero, suc, ◌||◌, not}
use earlyoom.Prelude.Int.{ℤ, pos, negsuc, ◌==ℤ◌}
use earlyoom.Double.{Double}
use earlyoom.Args.{Args}
use earlyoom.Machine.{Call, kill, write_byte, process_mrelease, open_write, Os, Action}
use earlyoom.Machine.Calls.{
  Calls, Calls-weaken, Calls-branch, Calls-bind, Calls-bind_known, Calls-pure, Calls-call,
  calls_rules,
}
use earlyoom.Machine.Returns.{Returns, Returns-branch, Returns-pure, Any}
use earlyoom.Machine.Quiet.{IsAside}
use earlyoom.Select.{ProcInfo}
use earlyoom.Kill.{
  kill_release, trigger_kernel_oom, kill_and_wait, open_pidfd, kill_target, kill_wait, kill_process,
}
use earlyoom.Kill.Aside.{kill_process-Calls, close_pidfd-Calls, open_pidfd-Calls}

-- A call that ends no process: `kill` only asks whether there is one, no memory is reaped, and
-- nothing is written.
abbrev pub IsHarmless : Call → Type 0
IsHarmless (kill pid zero) = Unit
IsHarmless (kill pid (suc sig)) = ⊥
IsHarmless (process_mrelease pidfd) = ⊥
IsHarmless (open_write file) = ⊥
IsHarmless (write_byte fd byte) = ⊥
IsHarmless _ = Unit

pub IsAside-IsHarmless : (c : Call) → IsAside c → IsHarmless c
IsAside-IsHarmless (kill pid sig) h = absurd h
IsAside-IsHarmless (process_mrelease pidfd) h = absurd h
IsAside-IsHarmless (open_write file) h = absurd h
IsAside-IsHarmless (write_byte fd byte) h = absurd h
IsAside-IsHarmless _ h = tt

aside : {A : Type 0} {x : Action A} → Calls IsAside x → Calls IsHarmless x
aside cx = Calls-weaken IsAside-IsHarmless cx

-- A test that cannot fail.
true_or : (a : Bool) → a || true ≡ false → ⊥
true_or true e = ground arith
true_or false e = ground arith

module _ {W : Type 0} ⦃d : Double W⦄ (os : Os) (args : Args W) where
  open_pidfd_none : (pid : ℤ) → Returns (λ fd. fd ≡ negsuc 0) Any (open_pidfd os args pid 0)
  unfolding open_pidfd
  open_pidfd_none pid =
      Returns-branch (λ _. Returns-pure _ refl) (λ e. absurd (true_or args.kill_process_group e))

  kill_release_probe : (pid fd : ℤ) → fd ≡ negsuc 0 → Calls IsHarmless (kill_release os pid fd 0)
  unfolding kill_release
  kill_release_probe pid fd none = Calls-bind (Calls-call os _ tt) λ res.
      Calls-branch (λ _. Calls-pure _)
        λ _. Calls-branch (λ _. Calls-pure _) λ e. absurd (ground arith)

  kill_and_wait_probe :
      (pid fd : ℤ) → fd ≡ negsuc 0 → Calls IsHarmless (kill_and_wait os args pid fd 0)
  unfolding kill_and_wait
  kill_and_wait_probe pid fd none =
      Calls-bind (kill_release_probe pid fd none)
        λ res. Calls-branch (λ _. Calls-pure _) λ e. absurd (true_or (not (res ==ℤ pos 0)) e)

  kill_target_probe : (pid : ℤ) → Calls IsHarmless (kill_target os args pid 0)
  unfolding kill_target
  kill_target_probe pid =
      Calls-bind_known (open_pidfd_none pid) (aside (open_pidfd-Calls os args pid 0)) λ fd none.
        Calls-bind (kill_and_wait_probe pid fd none)
          λ res. Calls-bind (aside (close_pidfd-Calls os args fd)) λ _. Calls-pure res

  pub kill_wait_probe : (pid : ℤ) → Calls IsHarmless (kill_wait os args pid 0)
  unfolding kill_wait
  kill_wait_probe pid = search (calls_rules, kill_target_probe) depth 20

  kill_wait_dryrun :
      (pid : ℤ) (sig : ℕ) → args.dryrun ≡ true → Calls IsHarmless (kill_wait os args pid sig)
  unfolding kill_wait
  kill_wait_dryrun pid zero dry = kill_wait_probe pid
  kill_wait_dryrun pid (suc sig) dry =
      Calls-branch (λ _. search (calls_rules)) λ e. absurd (ground arith)

  -- Under --dryrun no process is killed and no memory is reaped, whatever the signal and the victim.
  pub kill_process-IsHarmless :
      (sig : ℕ) (victim : ProcInfo)
      → args.dryrun ≡ true
      → Calls IsHarmless (kill_process os args sig victim)
  unfolding kill_process
  kill_process-IsHarmless sig victim dry =
      kill_process-Calls os args IsAside-IsHarmless tt sig victim
        λ _. kill_wait_dryrun victim.pid sig dry

  -- Under --dryrun the kernel's OOM killer is not triggered.
  pub trigger_kernel_oom-IsHarmless :
      args.dryrun ≡ true → Calls IsHarmless (trigger_kernel_oom os args)
  unfolding trigger_kernel_oom
  trigger_kernel_oom-IsHarmless dry = Calls-bind (Calls-call os _ tt) λ allowed.
      Calls-branch (λ _. search (calls_rules))
        λ _. Calls-branch (λ _. Calls-pure _) λ e. absurd (ground arith)
