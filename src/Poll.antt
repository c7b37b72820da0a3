-- ===== src/Poll.antt =====
-- main.c: the main loop, `poll_loop`. It never returns, so the model runs a number of its rounds.
--
-- A sleep that a signal interrupts goes on with the time left, which is the `number` of the reply,
-- in nanoseconds. The
-- source has no bound on the interruptions; here at most `interrupts` follow one another.
pub mod Parts
pub mod Exits
pub mod Nets
pub mod Safe
pub mod Quiet
pub mod Enough
pub mod Reaches
pub mod Largest
pub mod Disabled
pub mod Countdown
mod Tests
mod Hungry
mod Recovering
use earlyoom.Prelude.{ℕ, zero, suc, ◌-◌, ◌*◌, Bool, true, false, not, ◌&&◌, ◌||◌, ◌==◌}
use earlyoom.Prelude.Int.{ℤ, pos, negsuc, leb_ℤ, ◌-ℤ◌, ◌==ℤ◌, int_of_long}
use earlyoom.Double.{Double}
use earlyoom.Args.{Args, sigterm, sigkill}
use earlyoom.Machine.{
  nanosleep, Os, Machine, Action, pure, branch, ◌>>=◌, ◌>>◌, skip, gets, call, warn, info,
}
use earlyoom.MemInfo.{MemInfo, parse_meminfo}
use earlyoom.Decide.{lowmem_sig, sleep_time_ms}
use earlyoom.Select.{ProcInfo, find_largest_process}
use earlyoom.Kill.{trigger_kernel_oom, kill_process}

abbrev pub eintr : ℕ
eintr = 4

-- `while (nanosleep(&req, &req) == -1 && errno == EINTR)`
unfoldable pub sleep_through : Os → ℕ → ℕ → Action Unit
sleep_through os zero ns = do call os (nanosleep ns); skip
sleep_through os (suc interrupts) ns = do
  r ← call os (nanosleep ns)
  e ← gets (λ m. m.errno)
  branch (r.ret ==ℤ negsuc 0 && e == eintr) (sleep_through os interrupts r.number) skip

module _ {W : Type 0} ⦃d : Double W⦄ (os : Os) (args : Args W) where
  -- The memory report and the limits, on low memory.
  unfoldable pub warn_low : ℕ → Action Unit
  warn_low sig = branch (sig == sigkill || sig == sigterm) (warn os >> warn os) skip

  -- The periodic report, with the countdown after it.
  unfoldable pub report : MemInfo W → ℤ → Action ℤ
  report m countdown_ms =
      branch (not (args.report_interval_ms ==ℤ pos 0) && leb_ℤ countdown_ms (pos 0))
        (info os >> pure args.report_interval_ms) (pure countdown_ms)

  -- What follows the look at the memory: the sleep, and the countdown, an `int`, after it.
  unfoldable pub finish_round : ℕ → MemInfo W → ℤ → Action ℤ
  finish_round interrupts m countdown_ms = do
    let sleep_ms = sleep_time_ms args m
    sleep_through os interrupts (sleep_ms * 1_000_000)
    pure (int_of_long (countdown_ms -ℤ pos sleep_ms))

  -- With the victim at hand: the memory is looked at again before anything is killed.
  unfoldable pub kill_if_still_low : ℕ → ProcInfo → Action (MemInfo W)
  kill_if_still_low sig victim = do
    m ← parse_meminfo os
    branch (lowmem_sig args m == 0) (warn os) (kill_process os args sig victim)
    pure m

  unfoldable pub poll_round : ℕ → ℤ → Action ℤ
  poll_round interrupts countdown_ms = do
    m ← parse_meminfo os
    let sig = lowmem_sig args m
    warn_low sig
    branch (not (sig == 0))
        (branch args.kernel_oom
          (do trigger_kernel_oom os args; call os (nanosleep 500_000_000); pure countdown_ms)
          (do
            victim ← find_largest_process os args
            m' ← kill_if_still_low sig victim
            finish_round interrupts m' countdown_ms))
        (do countdown_ms' ← report m countdown_ms; finish_round interrupts m countdown_ms')

  -- So many rounds, from the given countdown: `poll_loop` starts at 0.
  unfoldable pub poll_rounds : ℕ → ℕ → ℤ → Action ℤ
  poll_rounds interrupts zero countdown_ms = pure countdown_ms
  poll_rounds interrupts (suc rounds) countdown_ms = do
    countdown_ms' ← poll_round interrupts countdown_ms
    poll_rounds interrupts rounds countdown_ms'
