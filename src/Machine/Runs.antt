-- ===== src/Machine/Runs.antt =====
-- What is known of the parts of an action that went on to its end.
use mathlib.Core.Path.{subst}
use earlyoom.Machine.Returns.{Holds, Returns, Any}
use earlyoom.Prelude.{◌≡◌, refl, ap, ℕ, Bool, true, false, ◌⊎◌, inl, inr}
use earlyoom.Machine.{
  Os, fatal, exit, Machine, Result, done, exited, replaced, Action, continue, ◌>>=◌, pure, branch,
}

-- The first action gave a value and a state, from which the second one came to its end.
pub record Runs {A B : Type 0} (x : Action A) (f : A → Action B) (m m' : Machine) (b : B)
    : Type 0 where
  pub value : A
  pub middle : Machine
  pub first : x m ≡ (done value, middle)
  pub second : f value middle ≡ (done b, m')

module _ {A B : Type 0} where
  Runs-continue :
      (x : Action A) (f : A → Action B) (m m' : Machine) (b : B) (r : Result A) (middle : Machine)
      → x m ≡ (r, middle)
      → continue r f middle ≡ (done b, m')
      → Runs x f m m' b
  Runs-continue x f m m' b (done a) middle e h = record {
    value = a;
    middle = middle;
    first = e;
    second = h;
  }
  Runs-continue x f m m' b (exited code) middle e h = cc
  Runs-continue x f m m' b replaced middle e h = cc

  pub Runs-bind :
      (x : Action A) (f : A → Action B) (m m' : Machine) (b : B)
      → (x >>= f) m ≡ (done b, m')
      → Runs x f m m' b
  unfolding ◌>>=◌
  Runs-bind x f m m' b h = Runs-continue x f m m' b (x m).0 (x m).1 refl h

pub pure_value :
    {A : Type 0} (a b : A) (m m' : Machine) → pure a m ≡ (done b, m') → (a ≡ b) × (m ≡ m')
unfolding pure
pure_value a b m m' h = (cc, cc)

-- Which of the two ran.
pub branch-cases :
    {A : Type 0} (b : Bool) (x y : Action A) (m : Machine) (r : Result A × Machine)
    → branch b x y m ≡ r
    → ((b ≡ true) × (x m ≡ r)) ⊎ ((b ≡ false) × (y m ≡ r))
unfolding branch
branch-cases true x y m r h = inl (refl, h)
branch-cases false x y m r h = inr (refl, h)

-- What holds of the value that is returned.
pub Returns-done :
    {A : Type 0} {Q : A → Type 0} {x : Action A} {a : A} {m m' : Machine}
    → Returns Q Any x
    → x m ≡ (done a, m')
    → Q a
Returns-done {Q} {m} rx h = subst (Holds Q Any) (ap (λ r. r.0) h) (rx.at m)

-- What ends the process gives no value.
pub fatal_ends :
    {A : Type 0} (os : Os) (code : ℕ) (a : A) (m m' : Machine) → fatal os code m ≡ (done a, m') → ⊥
unfolding fatal exit
fatal_ends os code a m m' h = let r = Runs-bind _ _ m m' a h in let e = ap (λ r. r.0) r.second in cc
