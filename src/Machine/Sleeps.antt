-- ===== src/Machine/Sleeps.antt =====
-- How long the program sleeps on purpose, in nanoseconds.
use earlyoom.Prelude.{
  ℕ, ◌+◌, ◌*◌, ◌≤◌, ◌≡◌, refl, arith, ◌∙◌, ap, Bool, true, false, List, [], ◌∷◌, ◌++◌, All,
}
use earlyoom.Machine.{
  Call, nanosleep, sleep, Event, Os, Machine, Result, done, exited, replaced, Action, continue,
  branch, ◌>>=◌, call,
}
use earlyoom.Machine.Calls.{Calls}
use earlyoom.Machine.Quiet.{IsAside}

abbrev pub duration : Call → ℕ
duration (nanosleep ns) = ns
duration (sleep s) = 1_000_000_000 * s
duration _ = 0

unfoldable pub slept : List Event → ℕ
slept [] = 0
slept ((c, r) ∷ events) = duration c + slept events

-- The action sleeps so many nanoseconds at most, however it ends.
pub record Within {A : Type 0} (ns : ℕ) (x : Action A) : Type 0 where
  pub at : (m : Machine) → slept (x m).1.trace ≤ ns + slept m.trace

abbrev pub IsAwake : Call → Type 0
IsAwake c = duration c ≡ 0

pub IsAside-IsAwake : (c : Call) → IsAside c → IsAwake c
IsAside-IsAwake (nanosleep ms) h = absurd h
IsAside-IsAwake (sleep s) h = absurd h
IsAside-IsAwake _ h = refl

slept_awake : (new old : List Event) → All (λ e. IsAwake e.0) new → slept (new ++ old) ≡ slept old
unfolding slept
slept_awake [] old h = refl
slept_awake ((c, r) ∷ new) old (h, hs) = omega (arith, h, slept_awake new old hs)

module _ {A : Type 0} where
  Within-awake : {x : Action A} → Calls IsAwake x → Within 0 x
  Within-awake {x} cx = record {
    at = λ m.
        let a = cx.at m in
        let same : slept (x m).1.trace ≡ slept m.trace =
          ap slept a.split ∙ slept_awake a.new m.trace a.each in
        omega (arith, same);
  }

  pub Within-weaken : {x : Action A} (n k : ℕ) → n ≤ k → Within n x → Within k x
  Within-weaken n k h wx = record { at = λ m. omega (arith, h, wx.at m) }

  pub Within-still : {x : Action A} (n : ℕ) → Calls IsAwake x → Within n x
  Within-still n cx = Within-weaken 0 n (ground arith) (Within-awake cx)

  pub Within-branch :
      {b : Bool} {x y : Action A} (n : ℕ)
      → (b ≡ true → Within n x)
      → (b ≡ false → Within n y)
      → Within n (branch b x y)
  unfolding branch
  Within-branch {b = true} n wx wy = wx refl
  Within-branch {b = false} n wx wy = wy refl

module _ {A B : Type 0} where
  Within-continue :
      (n : ℕ) (r : Result A) (f : A → Action B) (m : Machine)
      → ((a : A) → Within n (f a))
      → slept (continue r f m).1.trace ≤ n + slept m.trace
  Within-continue n (done a) f m k = (k a).at m
  Within-continue n (exited code) f m k = ground arith
  Within-continue n replaced f m k = ground arith

  pub Within-bind :
      {x : Action A} {f : A → Action B} (n k : ℕ)
      → Within n x
      → ((a : A) → Within k (f a))
      → Within (n + k) (x >>= f)
  unfolding ◌>>=◌
  Within-bind {x} {f} n k wx wf = record {
    at = λ m. omega (arith, wx.at m, Within-continue k (x m).0 f (x m).1 wf);
  }

  -- Behind an action that does not sleep.
  pub Within-then :
      {x : Action A} {f : A → Action B} (n : ℕ)
      → Calls IsAwake x
      → ((a : A) → Within n (f a))
      → Within n (x >>= f)
  Within-then n cx wf = record {
    at = λ m. omega (arith, (Within-bind 0 n (Within-awake cx) wf).at m);
  }

pub Within-nanosleep : (os : Os) (ns : ℕ) → Within ns (call os (nanosleep ns))
unfolding call slept
Within-nanosleep os ns = record { at = λ m. ground arith }
