-- ===== src/Poll/Safe.antt =====
-- What the main loop does to other processes.
use earlyoom.Prelude.{arith, ◌≡◌, true, false, Bool, ℕ, ◌⊎◌, inl, inr}
use earlyoom.Prelude.Int.{ℤ, pos, ◌<ℤ◌, ◌≤ℤ◌}
use earlyoom.Double.{Double}
use earlyoom.Args.{Args, sigterm, sigkill}
use earlyoom.Machine.{Call, kill, Os}
use earlyoom.Machine.Calls.{Calls, Calls-weaken, calls_rules}
use earlyoom.Machine.Quiet.{IsAside, IsReading, IsReading-IsAside}
use earlyoom.MemInfo.{MemInfo}
use earlyoom.Decide.{lowmem_sig}
use earlyoom.Select.{ProcInfo}
use earlyoom.Select.Victim.{IsVictim}
use earlyoom.Prelude.Text.{Bytes}
use earlyoom.Kill.{notify_dbus, trigger_kernel_oom, kill_process}
use earlyoom.Kill.Aside.{notify_dbus-Calls}
use earlyoom.Kill.Signals.{IsKillOf, kill_process-IsKillOf}
use earlyoom.Kill
use earlyoom.Kill.Dryrun.{
  IsHarmless, IsAside-IsHarmless, kill_process-IsHarmless, trigger_kernel_oom-IsHarmless,
}
use earlyoom.Poll.{poll_rounds}
use earlyoom.Poll.Parts.{poll_round-Calls, poll_rounds-Calls}

IsReading-IsHarmless : (c : Call) → IsReading c → IsHarmless c
IsReading-IsHarmless c h = IsAside-IsHarmless c (IsReading-IsAside c h)

module _ {W : Type 0} ⦃d : Double W⦄ (os : Os) (args : Args W) where
  -- Under --dryrun the main loop never kills, never reaps memory and never triggers the kernel's OOM
  -- killer, in any number of rounds and whatever the kernel answers.
  pub poll_rounds-IsHarmless :
      (interrupts rounds : ℕ) (countdown_ms : ℤ)
      → args.dryrun ≡ true
      → Calls IsHarmless (poll_rounds os args interrupts rounds countdown_ms)
  poll_rounds-IsHarmless interrupts rounds countdown_ms dry =
      poll_rounds-Calls os args
        (poll_round-Calls os args IsReading-IsHarmless (λ ms. tt)
          (trigger_kernel_oom-IsHarmless os args dry)
          λ victim m v. kill_process-IsHarmless os args _ victim dry)
        interrupts rounds countdown_ms

-- With -g a process group, which is a number that is not positive; without it neither init nor
-- kthreadd, nor a group.
abbrev pub IsGuarded : Bool → ℤ → Type 0
IsGuarded true p = p ≤ℤ pos 0
IsGuarded false p = pos 2 <ℤ p

abbrev pub IsSignal : ℕ → Type 0
IsSignal s = (s ≡ 0) ⊎ (s ≡ sigterm) ⊎ (s ≡ sigkill)

abbrev pub IsSafe : Bool → Call → Type 0
IsSafe group (kill p s) = IsGuarded group p × IsSignal s
IsSafe group _ = Unit

IsAside-IsSafe : (group : Bool) (c : Call) → IsAside c → IsSafe group c
IsAside-IsSafe group (kill p s) h = absurd h
IsAside-IsSafe group _ h = tt

IsReading-IsSafe : (group : Bool) (c : Call) → IsReading c → IsSafe group c
IsReading-IsSafe group (kill p s) h = absurd h
IsReading-IsSafe group _ h = tt

IsTarget-IsGuarded :
    (os : Os) (group : Bool) (pid p : ℤ)
    → (pid ≤ℤ pos 0) ⊎ (pos 2 <ℤ pid)
    → Kill.Signals.IsTarget os group pid p
    → IsGuarded group p
IsTarget-IsGuarded os true pid p v t = let e = t.negated in let named = t.named in ground arith
IsTarget-IsGuarded os false pid p v t = ground arith

module _ {W : Type 0} ⦃d : Double W⦄ (os : Os) (args : Args W) where
  IsVictim_pid : (v : ProcInfo) → IsVictim os args v → (v.pid ≤ℤ pos 0) ⊎ (pos 2 <ℤ v.pid)
  IsVictim_pid v (inl none_found) = inl none_found
  IsVictim_pid v (inr t) = inr t.not_init

  lowmem_sig-IsSignal :
      (m : MemInfo W) (s : ℕ) → (s ≡ 0) ⊎ (s ≡ lowmem_sig args m) ⊎ (s ≡ sigkill) → IsSignal s
  unfolding lowmem_sig
  lowmem_sig-IsSignal m s h = ground arith

  IsKillOf-IsSafe :
      (victim : ProcInfo) (m : MemInfo W)
      → IsVictim os args victim
      → (c : Call)
      → IsKillOf (Kill.Signals.IsTarget os args.kill_process_group victim.pid) (lowmem_sig args m) c
      → IsSafe args.kill_process_group c
  IsKillOf-IsSafe victim m v (kill p s) (t, h) = (
    IsTarget-IsGuarded os args.kill_process_group victim.pid p (IsVictim_pid victim v) t,
    lowmem_sig-IsSignal m s h,
  )
  IsKillOf-IsSafe victim m v _ h = tt

  notify_dbus-IsSafe : (body : Bytes) → Calls (IsSafe args.kill_process_group) (notify_dbus os body)
  notify_dbus-IsSafe body =
      Calls-weaken (IsAside-IsSafe args.kill_process_group) (notify_dbus-Calls os body)

  trigger_kernel_oom-IsSafe : Calls (IsSafe args.kill_process_group) (trigger_kernel_oom os args)
  unfolding trigger_kernel_oom
  trigger_kernel_oom-IsSafe = search (calls_rules, notify_dbus-IsSafe) depth 24

  -- Whatever the kernel answers, the main loop sends no other signal than SIGTERM and SIGKILL (0 only
  -- asks), and without -g none to init, to kthreadd or to a process group.
  pub poll_rounds-IsSafe :
      (interrupts rounds : ℕ) (countdown_ms : ℤ)
      → Calls (IsSafe args.kill_process_group) (poll_rounds os args interrupts rounds countdown_ms)
  poll_rounds-IsSafe interrupts rounds countdown_ms =
      poll_rounds-Calls os args
        (poll_round-Calls os args (IsReading-IsSafe args.kill_process_group) (λ ms. tt)
          trigger_kernel_oom-IsSafe
          λ victim m v.
            Calls-weaken (IsKillOf-IsSafe victim m v)
              (kill_process-IsKillOf os args (lowmem_sig args m) victim))
        interrupts rounds countdown_ms
