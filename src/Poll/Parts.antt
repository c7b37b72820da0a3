-- ===== src/Poll/Parts.antt =====
-- main.c: the calls of the main loop, from those of its parts.
use earlyoom.Prelude.{ℕ, zero, suc}
use earlyoom.Prelude.Int.{ℤ}
use earlyoom.Double.{Double}
use earlyoom.Args.{Args}
use earlyoom.Machine.{Call, nanosleep, print, warn_level, info_level, Os, Action, warn}
use earlyoom.Machine.Calls.{
  Calls, Calls-weaken, Calls-branch, Calls-bind, Calls-bind_known, Calls-pure, Calls-say,
  Calls-call, Calls-gets, calls_rules,
}
use earlyoom.Machine.Quiet.{IsReading}
use earlyoom.MemInfo.{MemInfo}
use earlyoom.MemInfo.Reads.{parse_meminfo-Calls}
use earlyoom.Decide.{lowmem_sig}
use earlyoom.Select.{ProcInfo}
use earlyoom.Select.Reads.{find_largest_process-Calls}
use earlyoom.Select.Victim.{IsVictim, find_largest_process-IsVictim}
use earlyoom.Kill.{trigger_kernel_oom, kill_process}
use earlyoom.Poll.{
  sleep_through, warn_low, report, finish_round, kill_if_still_low, poll_round, poll_rounds,
}

module _ {W : Type 0} ⦃d : Double W⦄ (os : Os) (args : Args W) {P : Call → Type 0} where
  module _ (reading : (c : Call) → IsReading c → P c) (sleeping : (ms : ℕ) → P (nanosleep ms)) where
    pub Calls-read : {A : Type 0} {x : Action A} → Calls IsReading x → Calls P x
    Calls-read cx = Calls-weaken reading cx

    pub Calls-warn : Calls P (warn os)
    Calls-warn = Calls-say os _ (reading (print warn_level) tt)

    sleep_through-Calls : (interrupts ms : ℕ) → Calls P (sleep_through os interrupts ms)
    unfolding sleep_through
    sleep_through-Calls zero ms = Calls-bind (Calls-call os _ (sleeping ms)) λ _. Calls-pure tt
    sleep_through-Calls (suc n) ms = Calls-bind (Calls-call os _ (sleeping ms)) λ r.
        Calls-bind (Calls-gets _)
          λ e. Calls-branch (λ _. sleep_through-Calls n r.number) λ _. Calls-pure tt

    pub finish_round-Calls :
        (interrupts : ℕ) (m : MemInfo W) (countdown_ms : ℤ)
        → Calls P (finish_round os args interrupts m countdown_ms)
    unfolding finish_round
    finish_round-Calls interrupts m countdown_ms =
        Calls-bind (sleep_through-Calls interrupts _) λ _. Calls-pure _

    pub warn_low-Calls : (sig : ℕ) → Calls P (warn_low os args sig)
    unfolding warn_low
    warn_low-Calls sig = search (calls_rules, Calls-warn) depth 14

    pub report-Calls : (m : MemInfo W) (countdown_ms : ℤ) → Calls P (report os args m countdown_ms)
    unfolding report
    report-Calls m countdown_ms =
        Calls-branch
          (λ _. Calls-bind (Calls-say os _ (reading (print info_level) tt)) λ _. Calls-pure _)
          λ _. Calls-pure _

    pub poll_round-Calls :
        Calls P (trigger_kernel_oom os args)
        → ((victim : ProcInfo) (m : MemInfo W)
            → IsVictim os args victim
            → Calls P (kill_process os args (lowmem_sig args m) victim))
        → (interrupts : ℕ) (countdown_ms : ℤ) → Calls P (poll_round os args interrupts countdown_ms)
    unfolding poll_round kill_if_still_low
    poll_round-Calls trigger kills interrupts countdown_ms =
        Calls-bind (Calls-read (parse_meminfo-Calls os)) λ m. Calls-bind (warn_low-Calls _) λ _.
          Calls-branch
            (λ _.
              Calls-branch
                (λ _.
                  Calls-bind trigger
                    λ _. Calls-bind (Calls-call os _ (sleeping 500_000_000)) λ _. Calls-pure _)
                λ _.
                  Calls-bind_known (find_largest_process-IsVictim os args)
                    (Calls-read (find_largest_process-Calls os args))
                    λ victim v.
                      Calls-bind
                        (Calls-bind (Calls-read (parse_meminfo-Calls os)) λ m'.
                          Calls-bind (Calls-branch (λ _. Calls-warn) λ _. kills victim m v)
                            λ _. Calls-pure m')
                        λ m'. finish_round-Calls interrupts m' countdown_ms)
            λ _.
              Calls-bind (report-Calls m countdown_ms)
                λ countdown_ms'. finish_round-Calls interrupts m countdown_ms'

  pub poll_rounds-Calls :
      ((interrupts : ℕ) (countdown_ms : ℤ) → Calls P (poll_round os args interrupts countdown_ms))
      → (interrupts rounds : ℕ) (countdown_ms : ℤ)
      → Calls P (poll_rounds os args interrupts rounds countdown_ms)
  unfolding poll_rounds
  poll_rounds-Calls round interrupts zero countdown_ms = Calls-pure _
  poll_rounds-Calls round interrupts (suc rounds) countdown_ms =
      Calls-bind (round interrupts countdown_ms)
        λ countdown_ms'. poll_rounds-Calls round interrupts rounds countdown_ms'
