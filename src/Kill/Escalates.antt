-- ===== src/Kill/Escalates.antt =====
-- `kill_wait` of kill.c where the memory gets lower while it waits.
use mathlib.Core.Path.{subst}
use earlyoom.Prelude.{ℕ, zero, suc, ◌≡◌, ◌≢◌, arith, sym, true, refl}
use earlyoom.Prelude.Int.{ℤ, pos, ◌<ℤ◌}
use earlyoom.Double.{Double}
use earlyoom.Args.{Args, sigkill}
use earlyoom.Machine.{Reply, kill, clock_gettime, Os, Machine, done, Action, call}
use earlyoom.Machine.Calls.{
  Calls, Calls-weaken, Calls-bind, Calls-bind_known, Calls-branch, Calls-pure, Calls-call,
  Calls-say, Calls-gets, calls_rules,
}
use earlyoom.Machine.Quiet.{IsReading, IsIdle, IsReading-IsIdle}
use earlyoom.Machine.Returns.{Returns, Any, Returns-pure, Returns-branch, Returns-bind, Returns-Any}
use earlyoom.Machine.Sends.{
  Calls-Any, Did, Did-bind, Did-first, Sends-first, Sends-then, Did-branch,
}
use earlyoom.Machine.Passes.{Passes, Passes-say}
use earlyoom.MemInfo.{MemInfo, parse_meminfo}
use earlyoom.MemInfo.Reads.{parse_meminfo-Calls}
use earlyoom.Proc.{is_alive}
use earlyoom.Proc.Reads.{parse_proc_pid_stat-Calls}
use earlyoom.Kill.{below_kill_limits, escalate, wait_rounds}
use earlyoom.Kill.Reaches.{kill_release-Sends}
use earlyoom.Kill.Signals.{wait_rounds-Calls, is_alive-Calls}

-- The course of a round of waiting: the clock is read, then memory below the SIGKILL limits is found.
pub record LowWait {W : Type 0} ⦃d : Double W⦄ (os : Os) (args : Args W) (before : Machine)
    : Type 0 where
  pub clock : Reply
  pub ticked : Machine
  pub memory : MemInfo W
  pub looked : Machine
  pub ticks : call os clock_gettime before ≡ (done clock, ticked)
  pub looks : parse_meminfo os ticked ≡ (done memory, looked)
  pub is_low : below_kill_limits os args memory ≡ true

module _ {W : Type 0} ⦃d : Double W⦄ (os : Os) (args : Args W) (pid : ℤ) where
  waiting-Any : (n : ℕ) (fd : ℤ) (sig : ℕ) → Calls Any (wait_rounds os args n pid fd sig)
  waiting-Any n fd sig = Calls-Any (wait_rounds-Calls (λ p. Unit) sig os pid tt args n fd sig)

  -- Where a round of waiting for a process that was not sent SIGKILL yet finds the memory at or below
  -- the SIGKILL limits, it sends SIGKILL.
  pub wait_rounds-escalates :
      (left : ℕ) (pidfd : ℤ) (sig : ℕ) (before : Machine)
      → sig ≢ sigkill
      → LowWait os args before
      → Did
          (kill pid sigkill)
          before.trace
          (wait_rounds os args (suc left) pid pidfd sig before).1.trace
  unfolding wait_rounds escalate
  wait_rounds-escalates left pidfd sig before soft low =
      Did-bind _ _ before low.ticked low.clock low.ticks (Calls-call os _ tt) (
        Did-first _ _ low.ticked
          (Did-branch _ true _ _ low.ticked _ (ground arith) (
            Did-bind _ _ low.ticked low.looked low.memory low.looks
              (Calls-Any (parse_meminfo-Calls os))
              (Did-branch _ true _ _ low.looked _ low.is_low (
                (Sends-then (Passes-say os _) λ _.
                    Sends-first (kill_release-Sends os pid sigkill pidfd) λ res. Calls-pure _).at
                  low.looked))))
          λ r.
            Calls-branch (λ _. Calls-pure _)
              λ _. Calls-bind (Calls-Any (is_alive-Calls (λ p. Unit) sig os pid tt)) λ alive.
                Calls-branch (λ _. Calls-bind (Calls-say os _ tt) λ _. Calls-pure _)
                  λ _. Calls-bind (Calls-call os _ tt) λ _. waiting-Any left pidfd r.1)

  idle : {A : Type 0} {x : Action A} → Calls IsReading x → Calls IsIdle x
  idle cx = Calls-weaken IsReading-IsIdle cx

  is_alive-IsIdle : pos 0 <ℤ pid → Calls IsIdle (is_alive os pid)
  unfolding is_alive
  is_alive-IsIdle single =
      Calls-branch (λ e. absurd (ground arith))
        λ _. Calls-bind (idle (parse_proc_pid_stat-Calls os pid)) λ stat. Calls-pure _

  escalate-IsIdle : (fd : ℤ) → Calls IsIdle (escalate os args pid fd sigkill)
  unfolding escalate
  escalate-IsIdle fd =
      Calls-branch (λ e. absurd (ground arith))
        λ _. Calls-bind (Calls-gets _) λ debug.
          Calls-bind
            (Calls-branch (λ _. Calls-bind (idle (parse_meminfo-Calls os)) λ m. Calls-say os _ tt)
              λ _. Calls-pure tt)
            λ _. Calls-pure _

  escalate-keeps : (fd : ℤ) → Returns (λ r. r.1 ≡ sigkill) Any (escalate os args pid fd sigkill)
  unfolding escalate
  escalate-keeps fd =
      Returns-branch (λ e. absurd (ground arith))
        λ _.
          Returns-bind (Returns-Any _)
            λ debug _. Returns-bind (Returns-Any _) λ _ _. Returns-pure _ refl

  -- Once a single process was sent SIGKILL, waiting for it only reads and sleeps, whatever the kernel
  -- answers.
  pub wait_rounds-IsIdle :
      (n : ℕ) (fd : ℤ) (sig : ℕ)
      → pos 0 <ℤ pid
      → sig ≡ sigkill
      → Calls IsIdle (wait_rounds os args n pid fd sig)
  unfolding wait_rounds
  wait_rounds-IsIdle zero fd sig single hard = search (calls_rules) depth 14
  wait_rounds-IsIdle (suc n) fd sig single hard = Calls-bind (Calls-call os _ tt) λ _.
      Calls-bind_known
        (subst (λ s. Returns (λ r. r.1 ≡ sigkill) Any (escalate os args pid fd s)) (sym hard)
          (escalate-keeps fd))
        (subst (λ s. Calls IsIdle (escalate os args pid fd s)) (sym hard) (escalate-IsIdle fd))
        λ r kept.
          Calls-branch (λ _. Calls-pure _)
            λ _. Calls-bind (is_alive-IsIdle single) λ alive.
              Calls-branch (λ _. Calls-bind (Calls-say os _ tt) λ _. Calls-pure _)
                λ _. Calls-bind (Calls-call os _ tt) λ _. wait_rounds-IsIdle n fd r.1 single kept
