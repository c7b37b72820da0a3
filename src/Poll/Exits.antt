-- ===== src/Poll/Exits.antt =====
-- main.c: the statuses with which the main loop may end the process.
use earlyoom.Prelude.{ℕ, zero, suc}
use earlyoom.Prelude.Int.{ℤ}
use earlyoom.Double.{Double}
use earlyoom.Args.{Args}
use earlyoom.Machine.{Os}
use earlyoom.Machine.Exits.{Exits, Exits-pure, Exits-bind, IsStatus, exits_rules}
use earlyoom.MemInfo.{MemInfo}
use earlyoom.MemInfo.Exits.{parse_meminfo-Exits}
use earlyoom.Select.{ProcInfo}
use earlyoom.Select.Exits.{find_largest_process-Exits}
use earlyoom.Kill.Exits.{kill_process-Exits, trigger_kernel_oom-Exits}
use earlyoom.Poll.{
  sleep_through, warn_low, report, finish_round, kill_if_still_low, poll_round, poll_rounds,
}

sleep_through-Exits :
    (os : Os) (interrupts ms : ℕ) → Exits IsStatus (sleep_through os interrupts ms)
unfolding sleep_through
sleep_through-Exits os zero ms = search (exits_rules) depth 14
sleep_through-Exits os (suc n) ms = search (exits_rules, sleep_through-Exits os n) depth 14

module _ {W : Type 0} ⦃d : Double W⦄ (os : Os) (args : Args W) where
  warn_low-Exits : (sig : ℕ) → Exits IsStatus (warn_low os args sig)
  unfolding warn_low
  warn_low-Exits sig = search (exits_rules) depth 14

  report-Exits : (m : MemInfo W) (countdown_ms : ℤ) → Exits IsStatus (report os args m countdown_ms)
  unfolding report
  report-Exits m countdown_ms = search (exits_rules) depth 14

  finish_round-Exits :
      (interrupts : ℕ) (m : MemInfo W) (countdown_ms : ℤ)
      → Exits IsStatus (finish_round os args interrupts m countdown_ms)
  unfolding finish_round
  finish_round-Exits interrupts m countdown_ms = search (exits_rules, sleep_through-Exits) depth 14

  kill_if_still_low-Exits :
      (sig : ℕ) (victim : ProcInfo) → Exits IsStatus (kill_if_still_low os args sig victim)
  unfolding kill_if_still_low
  kill_if_still_low-Exits sig victim =
      search (exits_rules, parse_meminfo-Exits, kill_process-Exits) depth 14

  poll_round-Exits :
      (interrupts : ℕ) (countdown_ms : ℤ)
      → Exits IsStatus (poll_round os args interrupts countdown_ms)
  unfolding poll_round
  poll_round-Exits interrupts countdown_ms =
      search
        (
          exits_rules, parse_meminfo-Exits, warn_low-Exits, trigger_kernel_oom-Exits,
          find_largest_process-Exits, kill_if_still_low-Exits, report-Exits, finish_round-Exits,
        )
        depth 20

  pub poll_rounds-Exits :
      (interrupts rounds : ℕ) (countdown_ms : ℤ)
      → Exits IsStatus (poll_rounds os args interrupts rounds countdown_ms)
  unfolding poll_rounds
  poll_rounds-Exits interrupts zero countdown_ms = Exits-pure countdown_ms
  poll_rounds-Exits interrupts (suc rounds) countdown_ms =
      Exits-bind (poll_round-Exits interrupts countdown_ms)
        λ countdown_ms'. poll_rounds-Exits interrupts rounds countdown_ms'
