-- ===== src/Poll/Countdown.antt =====
-- The countdown to the next memory report, an `int`: how long it cannot overflow.
use mathlib.Core.Path.{subst}
use earlyoom.Prelude.{sym, ℕ, zero, suc, ◌+◌, ◌*◌, ◌≤◌, ◌<◌, ◌≡◌, arith}
use earlyoom.Prelude.Int.{ℤ, pos, negsuc, neg, ◌≤ℤ◌, ◌-ℤ◌, int_of_long}
use earlyoom.Double.{Double}
use earlyoom.Args.{Args}
use earlyoom.Machine.{Os}
use earlyoom.Machine.Returns.{Returns, Any, Returns-pure, Returns-branch, Returns-bind, Returns-Any}
use earlyoom.MemInfo.{MemInfo}
use earlyoom.Decide.{sleep_time_ms}
use earlyoom.Decide.Sleep.{sleep_time_ms_bounds}
use earlyoom.Poll.{report, finish_round, poll_round, poll_rounds}

-- Not below so many seconds less than zero, and not above the interval.
abbrev pub IsCountdown : ℕ → ℕ → ℤ → Type 0
IsCountdown interval rounds c = (neg (pos (1000 * rounds)) ≤ℤ c) × (c ≤ℤ pos interval)

-- A number that an `int` holds is left as it is.
int_of_long_fits : (c : ℤ) → neg (pos 2147483648) ≤ℤ c → c ≤ℤ pos 2147483647 → int_of_long c ≡ c
int_of_long_fits (pos n) lo hi = ground arith
int_of_long_fits (negsuc n) lo hi = ground arith

sleep_bounds :
    (interval rounds : ℕ) (c : ℤ) (s : ℕ)
    → s ≤ 1000
    → IsCountdown interval rounds c
    → IsCountdown interval (suc rounds) (c -ℤ pos s)
sleep_bounds interval rounds (pos n) s h k = (ground arith, ground arith)
sleep_bounds interval rounds (negsuc n) s h k = (ground arith, ground arith)

low_fits :
    (rounds : ℕ) (c : ℤ)
    → 1000 * rounds ≤ 2147483648
    → neg (pos (1000 * rounds)) ≤ℤ c
    → neg (pos 2147483648) ≤ℤ c
low_fits rounds (pos n) h k = ground arith
low_fits rounds (negsuc n) h k = ground arith

high_fits : (interval : ℕ) (c : ℤ) → interval < 2147483648 → c ≤ℤ pos interval → c ≤ℤ pos 2147483647
high_fits interval c h k = ground arith

later :
    (interval rounds : ℕ) (c : ℤ)
    → IsCountdown interval rounds c
    → IsCountdown interval (suc rounds) c
later interval rounds (pos n) k = (ground arith, ground arith)
later interval rounds (negsuc n) k = (ground arith, ground arith)

less_sleep :
    (interval rounds : ℕ) (c : ℤ) (s : ℕ)
    → interval < 2147483648
    → 1000 * suc rounds ≤ 2147483648
    → s ≤ 1000
    → IsCountdown interval rounds c
    → IsCountdown interval (suc rounds) (int_of_long (c -ℤ pos s))
less_sleep interval rounds c s i n h k =
    let (lo, hi) = sleep_bounds interval rounds c s h k in
    rw
      (int_of_long_fits (c -ℤ pos s) (low_fits (suc rounds) (c -ℤ pos s) n lo)
        (high_fits interval (c -ℤ pos s) i hi))
      (lo, hi)

module _ {W : Type 0} ⦃d : Double W⦄ (os : Os) (args : Args W) (interval : ℕ)
    (given : args.report_interval_ms ≡ pos interval) (fits : interval < 2147483648) where
  finish_round-IsCountdown :
      (interrupts rounds : ℕ) (m : MemInfo W) (c : ℤ)
      → 1000 * suc rounds ≤ 2147483648
      → IsCountdown interval rounds c
      → Returns (IsCountdown interval (suc rounds)) Any (finish_round os args interrupts m c)
  unfolding finish_round
  finish_round-IsCountdown interrupts rounds m c n k = Returns-bind (Returns-Any _) λ _ _.
      Returns-pure _ (
        less_sleep interval rounds c (sleep_time_ms args m) fits n (sleep_time_ms_bounds args m).1
          k)

  report-IsCountdown :
      (rounds : ℕ) (m : MemInfo W) (c : ℤ)
      → IsCountdown interval rounds c
      → Returns (IsCountdown interval rounds) Any (report os args m c)
  unfolding report
  report-IsCountdown rounds m c k =
      Returns-branch
        (λ _.
          Returns-bind (Returns-Any _)
            λ _ _. Returns-pure _ (subst (IsCountdown interval rounds) (sym given) (omega arith)))
        λ _. Returns-pure c k

  poll_round-IsCountdown :
      (interrupts rounds : ℕ) (c : ℤ)
      → 1000 * suc rounds ≤ 2147483648
      → IsCountdown interval rounds c
      → Returns (IsCountdown interval (suc rounds)) Any (poll_round os args interrupts c)
  unfolding poll_round
  poll_round-IsCountdown interrupts rounds c n k = Returns-bind (Returns-Any _) λ m _.
      Returns-bind (Returns-Any _) λ _ _.
        Returns-branch
          (λ _.
            Returns-branch
              (λ _. Returns-bind (Returns-Any _) λ _ _.
                Returns-bind (Returns-Any _) λ _ _. Returns-pure c (later interval rounds c k))
              λ _. Returns-bind (Returns-Any _) λ victim _.
                Returns-bind (Returns-Any _)
                  λ m' _. finish_round-IsCountdown interrupts rounds m' c n k)
          λ _.
            Returns-bind (report-IsCountdown rounds m c k)
              λ c' k'. finish_round-IsCountdown interrupts rounds m c' n k'

  rounds-IsCountdown :
      (interrupts rounds past : ℕ) (c : ℤ)
      → 1000 * (past + rounds) ≤ 2147483648
      → IsCountdown interval past c
      → Returns (IsCountdown interval (past + rounds)) Any (poll_rounds os args interrupts rounds c)
  unfolding poll_rounds
  rounds-IsCountdown interrupts zero past c n k =
      let e : past + 0 ≡ past = omega arith in
      Returns-pure c (subst (λ r. IsCountdown interval r c) (sym e) k)
  rounds-IsCountdown interrupts (suc rounds) past c n k =
      let e : past + suc rounds ≡ suc past + rounds = omega arith in
      Returns-bind (poll_round-IsCountdown interrupts past c (omega arith) k) λ c' k'.
        subst (λ r. Returns (IsCountdown interval r) Any (poll_rounds os args interrupts rounds c'))
          (sym e) (rounds-IsCountdown interrupts rounds (suc past) c' (omega arith) k')

  -- With an interval that an `int` holds, the countdown behind so many rounds of the main loop is not
  -- above the interval, and below zero by no more than a second for each round: no `int` overflows
  -- in the first 2147483 rounds, whatever the kernel answers.
  pub poll_rounds-IsCountdown :
      (interrupts rounds : ℕ)
      → rounds ≤ 2147483
      → Returns (IsCountdown interval rounds) Any (poll_rounds os args interrupts rounds (pos 0))
  poll_rounds-IsCountdown interrupts rounds n =
      let e : 0 + rounds ≡ rounds = omega arith in
      subst
        (λ r. Returns (IsCountdown interval r) Any (poll_rounds os args interrupts rounds (pos 0)))
        e (rounds-IsCountdown interrupts rounds 0 (pos 0) (omega arith) (omega arith))
