-- ===== src/Poll/Enough.antt =====
-- main.c: the interruptions of the sleep in `poll_loop`.
use earlyoom.Prelude.{
  ℕ, zero, suc, ◌*◌, ◌≤◌, ◌<◌, ◌≡◌, refl, sym, Bool, true, false, ◌&&◌, ◌==◌, List, if◌then◌else◌,
  arith,
}
use earlyoom.Prelude.Int.{ℤ, pos, negsuc, ◌==ℤ◌, int_of_long, ◌-ℤ◌}
use earlyoom.Double.{Double}
use earlyoom.Args.{Args}
use earlyoom.Machine.{
  nanosleep, Event, Reply, Os, Machine, Action, pure, branch, ◌>>=◌, gets, call, failed,
}
use earlyoom.Decide.{sleep_time_ms}
use earlyoom.Decide.Sleep.{sleep_time_ms_bounds}
use earlyoom.Poll.{eintr, sleep_through, finish_round, poll_round, poll_rounds}

-- A signal comes after a part of the sleep: the time left is less than what was asked for, in
-- nanoseconds.
pub record IsSleeper (os : Os) : Type 0 where
  pub left :
      (t : List Event) (ns : ℕ)
      → (os t (nanosleep ns)).ret ≡ negsuc 0
      → (os t (nanosleep ns)).err ≡ eintr
      → (os t (nanosleep ns)).number < ns

interrupted :
    (r : Reply) (old : ℕ)
    → (r.ret ==ℤ negsuc 0 && (if failed r then r.err else old) == eintr) ≡ true
    → (r.ret ≡ negsuc 0) × (r.err ≡ eintr)
interrupted r old h = ground arith

branch_agree :
    {A : Type 0} (b : Bool) (x y z w : Action A) (m : Machine)
    → (b ≡ true → x m ≡ y m)
    → (b ≡ false → z m ≡ w m)
    → branch b x z m ≡ branch b y w m
unfolding branch
branch_agree true x y z w m h k = h refl
branch_agree false x y z w m h k = k refl

branch_second :
    {A : Type 0} (b : Bool) (x y : Action A) (m : Machine) → (b ≡ true → ⊥) → branch b x y m ≡ y m
unfolding branch
branch_second true x y m h = absurd (h refl)
branch_second false x y m h = refl

module _ (os : Os) (sleeper : IsSleeper os) where
  ends :
      (ns : ℕ) (t : List Event) (old : ℕ)
      → let r = os t (nanosleep ns) in
        (r.ret ==ℤ negsuc 0 && (if failed r then r.err else old) == eintr) ≡ true → ns ≤ 0 → ⊥
  ends ns t old e h =
      let both = interrupted (os t (nanosleep ns)) old e in
      let less = sleeper.left t ns both.0 both.1 in omega arith

  sleep_through_enough :
      (f g ns : ℕ) (m : Machine)
      → ns ≤ f
      → ns ≤ g
      → sleep_through os f ns m ≡ sleep_through os g ns m
  unfolding sleep_through ◌>>=◌ call gets
  sleep_through_enough zero zero ns m hf hg = refl
  sleep_through_enough zero (suc g) ns m hf hg =
      sym (branch_second _ _ _ _ λ e. ends ns m.trace m.errno e hf)
  sleep_through_enough (suc f) zero ns m hf hg =
      branch_second _ _ _ _ λ e. ends ns m.trace m.errno e hg
  sleep_through_enough (suc f) (suc g) ns m hf hg =
      let r : Reply = os m.trace (nanosleep ns) in
      branch_agree _ _ _ _ _ _
        (λ e.
          let both = interrupted r m.errno e in
          let less = sleeper.left m.trace ns both.0 both.1 in
          sleep_through_enough f g r.number _ (omega arith) (omega arith))
        λ _. refl

  module _ {W : Type 0} ⦃d : Double W⦄ (args : Args W) (f g : ℕ) (hf : 1_000_000_000 ≤ f)
      (hg : 1_000_000_000 ≤ g) where
    finish_round_enough : finish_round os args f ≡ finish_round os args g
    unfolding finish_round
    finish_round_enough i m countdown_ms =
        let bounds = sleep_time_ms_bounds args m in
        let slept : sleep_through os f (sleep_time_ms args m * 1_000_000)
            ≡ sleep_through os g (sleep_time_ms args m * 1_000_000) =
          λ i k.
            sleep_through_enough f g (sleep_time_ms args m * 1_000_000) k (omega arith)
              (omega arith) i in
        slept i >>= λ _. pure (int_of_long (countdown_ms -ℤ pos (sleep_time_ms args m)))

    poll_round_enough :
        (countdown_ms : ℤ) → poll_round os args f countdown_ms ≡ poll_round os args g countdown_ms
    unfolding poll_round
    poll_round_enough countdown_ms = rw finish_round_enough refl

    -- Where an interrupted `nanosleep` leaves less time than it was asked for, 10^9 interruptions of
    -- one sleep are enough: a run of the main loop that allows for more is the same run.
    pub poll_rounds_enough :
        (rounds : ℕ) (countdown_ms : ℤ)
        → poll_rounds os args f rounds countdown_ms ≡ poll_rounds os args g rounds countdown_ms
    unfolding poll_rounds
    poll_rounds_enough zero countdown_ms = refl
    poll_rounds_enough (suc rounds) countdown_ms = λ i.
        poll_round_enough countdown_ms i >>= λ countdown_ms'.
        poll_rounds_enough rounds countdown_ms' i
