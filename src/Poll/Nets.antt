-- ===== src/Poll/Nets.antt =====
-- main.c: the files and descriptors of the main loop.
use earlyoom.Prelude.{ℕ, zero, suc}
use earlyoom.Prelude.Int.{ℤ}
use earlyoom.Double.{Double}
use earlyoom.Args.{Args}
use earlyoom.Machine.{Os}
use earlyoom.Machine.Nets.{Weight, Stays, Stays-pure, Stays-bind, stays_rules}
use earlyoom.MemInfo.{MemInfo}
use earlyoom.MemInfo.Nets.{parse_meminfo-Nets}
use earlyoom.Select.{ProcInfo}
use earlyoom.Select.Nets.{find_largest_process-Nets}
use earlyoom.Kill.Nets.{IsPlain, kill_process-Nets, trigger_kernel_oom-Nets}
use earlyoom.Poll.{
  sleep_through, warn_low, report, finish_round, kill_if_still_low, poll_round, poll_rounds,
}

sleep_through-Nets :
    {w : Weight} {n : ℕ} (os : Os) (interrupts ms : ℕ) → Stays w n (sleep_through os interrupts ms)
unfolding sleep_through
sleep_through-Nets {w} {n} os zero ms = search (stays_rules) depth 14
sleep_through-Nets {w} {n} os (suc k) ms =
    search (stays_rules, sleep_through-Nets {w = w} {n = n} os k) depth 14

module _ {w : Weight} {n : ℕ} {W : Type 0} ⦃d : Double W⦄ (os : Os) (args : Args W)
    (plain : IsPlain os) where
  warn_low-Nets : (sig : ℕ) → Stays w n (warn_low os args sig)
  unfolding warn_low
  warn_low-Nets sig = search (stays_rules) depth 14

  report-Nets : (m : MemInfo W) (countdown_ms : ℤ) → Stays w n (report os args m countdown_ms)
  unfolding report
  report-Nets m countdown_ms = search (stays_rules) depth 14

  finish_round-Nets :
      (interrupts : ℕ) (m : MemInfo W) (countdown_ms : ℤ)
      → Stays w n (finish_round os args interrupts m countdown_ms)
  unfolding finish_round
  finish_round-Nets interrupts m countdown_ms = search (stays_rules, sleep_through-Nets) depth 14

  kill_if_still_low-Nets :
      (sig : ℕ) (victim : ProcInfo) → Stays w n (kill_if_still_low os args sig victim)
  unfolding kill_if_still_low
  kill_if_still_low-Nets sig victim =
      search (stays_rules, parse_meminfo-Nets, kill_process-Nets os args plain) depth 14

  poll_round-Nets :
      (interrupts : ℕ) (countdown_ms : ℤ) → Stays w n (poll_round os args interrupts countdown_ms)
  unfolding poll_round
  poll_round-Nets interrupts countdown_ms =
      search
        (
          stays_rules,
          parse_meminfo-Nets,
          warn_low-Nets,
          trigger_kernel_oom-Nets os args plain,
          find_largest_process-Nets,
          kill_if_still_low-Nets,
          report-Nets,
          finish_round-Nets,
        )
        depth 20

  pub poll_rounds-Nets :
      (interrupts rounds : ℕ) (countdown_ms : ℤ)
      → Stays w n (poll_rounds os args interrupts rounds countdown_ms)
  unfolding poll_rounds
  poll_rounds-Nets interrupts zero countdown_ms = Stays-pure countdown_ms
  poll_rounds-Nets interrupts (suc rounds) countdown_ms =
      Stays-bind (poll_round-Nets interrupts countdown_ms)
        λ countdown_ms'. poll_rounds-Nets interrupts rounds countdown_ms'
