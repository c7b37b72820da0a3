-- ===== src/Kill/Signals.antt =====
-- To whom `kill_process` sends a signal.
use earlyoom.Prelude.{List, refl, arith, ◌≡◌, true, false, Bool, ℕ, zero, suc, not, ◌⊎◌, inl, inr}
use earlyoom.Prelude.Int.{ℤ, pos, neg, ◌<ℤ◌, ◌≤ℤ◌}
use earlyoom.Double.{Double}
use earlyoom.Args.{Args, sigkill}
use earlyoom.Machine.{Call, kill, getpgid, open_write, write_byte, Event, Reply, Os, Action, failed}
use earlyoom.Machine.Returns.{IsAnswer, Returns-IsAnswer}
use earlyoom.Machine.Calls.{
  Calls, Calls-bind_known, Calls-weaken, Calls-branch, Calls-bind, Calls-pure, Calls-say,
  Calls-call, Calls-gets, calls_rules,
}
use earlyoom.Machine.Quiet.{IsAside, IsReading-IsAside}
use earlyoom.Proc.{is_alive}
use earlyoom.Proc.Reads.{parse_proc_pid_stat-Calls}
use earlyoom.Select.{ProcInfo}
use earlyoom.Kill.{
  kill_release, escalate, wait_rounds, kill_and_wait, kill_target, kill_wait, kill_process,
}
use earlyoom.Kill.Aside.{
  kill_process-Calls, parse_meminfo-IsAside, close_pidfd-Calls, open_pidfd-Calls,
}

-- The number is that of a process group, negated: the group that the kernel has named for the process.
pub record IsGroupOf (os : Os) (pid p : ℤ) : Type 0 where
  pub asked : List Event
  pub named : pos 0 ≤ℤ (os asked (getpgid pid)).ret
  pub negated : p ≡ neg (os asked (getpgid pid)).ret

-- With -g the target is the victim's process group; without it the victim alone, whose number is
-- positive.
abbrev pub IsTarget : Os → Bool → ℤ → ℤ → Type 0
IsTarget os true pid p = IsGroupOf os pid p
IsTarget os false pid p = (p ≡ pid) × (pos 0 <ℤ p)

-- A signal goes to a target of the set `T`, and is 0, which only asks, the signal asked for, or
-- SIGKILL. Nothing is written.
abbrev pub IsKillOf : (ℤ → Type 0) → ℕ → Call → Type 0
IsKillOf T sig (kill p s) = T p × ((s ≡ 0) ⊎ (s ≡ sig) ⊎ (s ≡ sigkill))
IsKillOf T sig (open_write file) = ⊥
IsKillOf T sig (write_byte fd byte) = ⊥
IsKillOf T sig _ = Unit

module _ (T : ℤ → Type 0) (sig : ℕ) where
  IsAside-IsKillOf : (c : Call) → IsAside c → IsKillOf T sig c
  IsAside-IsKillOf (kill p s) h = absurd h
  IsAside-IsKillOf (open_write file) h = absurd h
  IsAside-IsKillOf (write_byte fd byte) h = absurd h
  IsAside-IsKillOf _ h = tt

  aside : {A : Type 0} {x : Action A} → Calls IsAside x → Calls (IsKillOf T sig) x
  aside cx = Calls-weaken IsAside-IsKillOf cx

  module _ (os : Os) (p : ℤ) (target : T p) where
    kill_release-Calls :
        (fd : ℤ) (s : ℕ)
        → (s ≡ 0) ⊎ (s ≡ sig) ⊎ (s ≡ sigkill)
        → Calls (IsKillOf T sig) (kill_release os p fd s)
    unfolding kill_release
    kill_release-Calls fd s known =
        Calls-bind (Calls-call os (kill p s) (target, known)) λ res. search (calls_rules) depth 14

    pub is_alive-Calls : Calls (IsKillOf T sig) (is_alive os p)
    unfolding is_alive
    is_alive-Calls =
        Calls-branch
          (λ _. Calls-bind (Calls-call os (kill p 0) (target, inl refl)) λ res. Calls-pure _)
          (λ _.
            Calls-bind (aside (Calls-weaken IsReading-IsAside (parse_proc_pid_stat-Calls os p)))
              λ stat. Calls-pure _)

    module _ {W : Type 0} ⦃d : Double W⦄ (args : Args W) where
      escalate-Calls : (fd : ℤ) (s : ℕ) → Calls (IsKillOf T sig) (escalate os args p fd s)
      unfolding escalate
      escalate-Calls fd s =
          Calls-branch
            (λ _. Calls-bind (aside (parse_meminfo-IsAside os args)) λ m.
              Calls-branch
                (λ _. Calls-bind (Calls-say os _ tt) λ _.
                  Calls-bind (kill_release-Calls fd sigkill (inr (inr refl))) λ res. Calls-pure _)
                λ _. Calls-pure _)
            λ _. Calls-bind (Calls-gets _) λ debug.
              Calls-bind
                (Calls-branch
                  (λ _. Calls-bind (aside (parse_meminfo-IsAside os args)) λ m. Calls-say os _ tt)
                  λ _. Calls-pure tt)
                λ _. Calls-pure _

      pub wait_rounds-Calls :
          (n : ℕ) (fd : ℤ) (s : ℕ) → Calls (IsKillOf T sig) (wait_rounds os args n p fd s)
      unfolding wait_rounds
      wait_rounds-Calls zero fd s = search (calls_rules) depth 14
      wait_rounds-Calls (suc n) fd s =
          search (calls_rules, escalate-Calls fd, is_alive-Calls, wait_rounds-Calls n fd) depth 20

      kill_target-Calls : Calls (IsKillOf T sig) (kill_target os args p sig)
      unfolding kill_target kill_and_wait
      kill_target-Calls = Calls-bind (aside (open_pidfd-Calls os args p sig)) λ fd.
          Calls-bind
            (Calls-bind (kill_release-Calls fd sig (inr (inl refl))) λ res.
              Calls-branch (λ _. Calls-pure res)
                λ _. Calls-bind (Calls-call os _ tt) λ _. wait_rounds-Calls 100 fd sig)
            λ res. Calls-bind (aside (close_pidfd-Calls os args fd)) λ _. Calls-pure res

IsTarget-single :
    (os : Os) (group : Bool) (pid : ℤ) → not group ≡ true → pos 0 <ℤ pid → IsTarget os group pid pid
IsTarget-single os true pid e positive = absurd (ground arith)
IsTarget-single os false pid e positive = (refl, positive)

IsTarget-group :
    (os : Os) (group : Bool) (pid : ℤ) (r : Reply)
    → not group ≡ false
    → IsAnswer os (getpgid pid) r
    → failed r ≡ false
    → IsTarget os group pid (neg r.ret)
IsTarget-group os true pid r e a found = record {
  asked = a.asked;
  named = rw a.same (ground arith);
  negated = rw a.same refl;
}
IsTarget-group os false pid r e a found = absurd (ground arith)

module _ {W : Type 0} ⦃d : Double W⦄ (os : Os) (args : Args W) where
  kill_wait-Calls :
      (pid : ℤ) (sig : ℕ)
      → pos 0 <ℤ pid
      → Calls (IsKillOf (IsTarget os args.kill_process_group pid) sig) (kill_wait os args pid sig)
  unfolding kill_wait
  kill_wait-Calls pid sig positive =
      let group = args.kill_process_group in
      Calls-branch (λ _. search (calls_rules) depth 14)
        λ _.
          Calls-branch
            (λ e. kill_target-Calls _ sig os pid (IsTarget-single os group pid e positive) args)
            λ e.
              Calls-bind_known (Returns-IsAnswer os (getpgid pid)) (Calls-call os _ tt)
                λ res answer.
                  Calls-branch (λ _. Calls-pure _)
                    λ found. Calls-bind (Calls-say os _ tt) λ _.
                      kill_target-Calls _ sig os (neg res.ret)
                        (IsTarget-group os group pid res e answer found) args

  -- Every signal goes to the victim, whose pid is positive, or with -g to the process group that
  -- the kernel has named for the victim; it is the signal asked for, SIGKILL, or 0, which only asks whether the process is there.
  pub kill_process-IsKillOf :
      (sig : ℕ) (victim : ProcInfo)
      → Calls
          (IsKillOf (IsTarget os args.kill_process_group victim.pid) sig)
          (kill_process os args sig victim)
  kill_process-IsKillOf sig victim =
      kill_process-Calls os args (IsAside-IsKillOf _ sig) tt sig victim
        λ e. kill_wait-Calls victim.pid sig (ground arith)
