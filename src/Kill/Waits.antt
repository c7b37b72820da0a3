-- ===== src/Kill/Waits.antt =====
-- How long `kill_wait` waits.
use earlyoom.Prelude.{ℕ, zero, suc, ◌+◌, ◌*◌, refl, arith}
use earlyoom.Prelude.Int.{ℤ}
use earlyoom.Double.{Double}
use earlyoom.Args.{Args}
use earlyoom.Machine.{Os, Action}
use earlyoom.Machine.Calls.{
  Calls, Calls-weaken, calls_rules, Calls-bind, Calls-branch, Calls-pure, Calls-call, Calls-say,
}
use earlyoom.Machine.Quiet.{IsAside, IsReading-IsAside}
use earlyoom.Machine.Sleeps.{
  IsAwake, IsAside-IsAwake, Within, Within-weaken, Within-still, Within-then, Within-branch,
  Within-bind, Within-nanosleep,
}
use earlyoom.MemInfo.{parse_meminfo}
use earlyoom.Proc.{is_alive}
use earlyoom.Proc.Reads.{parse_proc_pid_stat-Calls}
use earlyoom.Kill.{kill_release, escalate, wait_rounds, kill_and_wait, kill_target, kill_wait}
use earlyoom.Kill.Aside.{parse_meminfo-IsAside, close_pidfd-Calls, open_pidfd-Calls}

module _ (os : Os) where
  awake : {A : Type 0} {x : Action A} → Calls IsAside x → Calls IsAwake x
  awake cx = Calls-weaken IsAside-IsAwake cx

  kill_release-IsAwake : (pid fd : ℤ) (sig : ℕ) → Calls IsAwake (kill_release os pid fd sig)
  unfolding kill_release
  kill_release-IsAwake pid fd sig = search (calls_rules) depth 20

  is_alive-IsAwake : (pid : ℤ) → Calls IsAwake (is_alive os pid)
  unfolding is_alive
  is_alive-IsAwake pid =
      let reads = awake (Calls-weaken IsReading-IsAside (parse_proc_pid_stat-Calls os pid)) in
      Calls-branch (λ _. Calls-bind (Calls-call os _ refl) λ _. Calls-pure _)
        (λ _. Calls-bind reads λ _. Calls-pure _)

module _ {W : Type 0} ⦃d : Double W⦄ (os : Os) (args : Args W) where
  parse_meminfo-IsAwake : Calls IsAwake (parse_meminfo {W = W} os)
  parse_meminfo-IsAwake = awake os (parse_meminfo-IsAside os args)

  escalate-IsAwake : (pid fd : ℤ) (sig : ℕ) → Calls IsAwake (escalate os args pid fd sig)
  unfolding escalate
  escalate-IsAwake pid fd sig =
      search (calls_rules, parse_meminfo-IsAwake, kill_release-IsAwake) depth 20

  -- A round sleeps 100 ms.
  wait_rounds-Within :
      (n : ℕ) (pid fd : ℤ) (sig : ℕ) → Within (100_000_000 * n) (wait_rounds os args n pid fd sig)
  unfolding wait_rounds
  wait_rounds-Within zero pid fd sig = Within-still _ (search (calls_rules) depth 14)
  wait_rounds-Within (suc n) pid fd sig =
      let rounds = 100_000_000 * suc n in
      Within-then rounds (Calls-call os _ refl) λ _.
        Within-then rounds (escalate-IsAwake pid fd sig) λ r.
          Within-branch rounds (λ _. Within-still rounds (Calls-pure _))
            λ _. Within-then rounds (is_alive-IsAwake os pid) λ alive.
              Within-branch rounds (λ _. Within-still rounds (search (calls_rules) depth 14))
                λ _. Within-weaken (100_000_000 + 100_000_000 * n) rounds (ground arith) (
                  Within-bind 100_000_000 (100_000_000 * n) (Within-nanosleep os 100_000_000)
                    λ _. wait_rounds-Within n pid fd r.1)

  kill_target-Within : (pid : ℤ) (sig : ℕ) → Within 10_000_000_000 (kill_target os args pid sig)
  unfolding kill_target kill_and_wait
  kill_target-Within pid sig =
      Within-then 10_000_000_000 (awake os (open_pidfd-Calls os args pid sig)) λ fd.
        Within-bind 10_000_000_000 0
          (Within-then 10_000_000_000 (kill_release-IsAwake os pid fd sig) λ res.
            Within-branch 10_000_000_000 (λ _. Within-still 10_000_000_000 (Calls-pure res))
              λ _.
                Within-then 10_000_000_000 (Calls-call os _ refl)
                  λ _. wait_rounds-Within 100 pid fd sig)
          λ res.
            Within-then 0 (awake os (close_pidfd-Calls os args fd))
              λ _. Within-still 0 (Calls-pure res)

  -- `kill_wait` sleeps at most ten seconds in all, whatever the kernel answers.
  pub kill_wait-Within : (pid : ℤ) (sig : ℕ) → Within 10_000_000_000 (kill_wait os args pid sig)
  unfolding kill_wait
  kill_wait-Within pid sig =
      Within-branch 10_000_000_000
        (λ _. Within-still 10_000_000_000 (search (calls_rules) depth 14))
        λ _.
          Within-branch 10_000_000_000 (λ _. kill_target-Within pid sig)
            λ _. Within-then 10_000_000_000 (Calls-call os _ refl) λ res.
              Within-branch 10_000_000_000 (λ _. Within-still 10_000_000_000 (Calls-pure _))
                λ _. Within-then 10_000_000_000 (Calls-say os _ refl) λ _. kill_target-Within _ sig
