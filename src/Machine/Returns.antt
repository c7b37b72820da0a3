-- ===== src/Machine/Returns.antt =====
-- What holds of the value that an action returns and of the status with which it ends the process,
-- one rule for each way to build an action.
use earlyoom.Prelude.{List, ℕ, ◌≡◌, refl, Bool, true, false}
use earlyoom.Machine.{
  Call, Event, Reply, Level, warn_level, Os, Machine, Result, done, exited, replaced, Action, pure,
  exit, continue, ◌>>=◌, branch, gets, modify, call, say, fatal,
}

abbrev pub Holds : {A : Type 0} → (A → Type 0) → (ℕ → Type 0) → Result A → Type 0
Holds Q E (done a) = Q a
Holds Q E (exited code) = E code
Holds Q E replaced = Unit

pub record Returns {A : Type 0} (Q : A → Type 0) (E : ℕ → Type 0) (x : Action A) : Type 0 where
  pub at : (m : Machine) → Holds Q E (x m).0

abbrev pub Any : {A : Type 0} → A → Type 0
Any a = Unit

module _ {A : Type 0} {Q : A → Type 0} {E : ℕ → Type 0} where
  pub Returns-pure : (a : A) → Q a → Returns Q E (pure a)
  unfolding pure
  Returns-pure a q = record { at = λ m. q }

  pub Returns-exit : (code : ℕ) → E code → Returns Q E (exit code)
  unfolding exit
  Returns-exit code e = record { at = λ m. e }

  pub Returns-branch :
      {b : Bool} {x y : Action A}
      → (b ≡ true → Returns Q E x)
      → (b ≡ false → Returns Q E y)
      → Returns Q E (branch b x y)
  unfolding branch
  Returns-branch {b = true} kx ky = kx refl
  Returns-branch {b = false} kx ky = ky refl

module _ {A B : Type 0} {Q : A → Type 0} {R : B → Type 0} {E : ℕ → Type 0} where
  Holds-continue :
      (r : Result A) (f : A → Action B) (m : Machine)
      → Holds Q E r
      → ((a : A) → Q a → Returns R E (f a))
      → Holds R E (continue r f m).0
  Holds-continue (done a) f m q k = (k a q).at m
  Holds-continue (exited code) f m e k = e
  Holds-continue replaced f m e k = tt

  pub Returns-bind :
      {x : Action A} {f : A → Action B}
      → Returns Q E x
      → ((a : A) → Q a → Returns R E (f a))
      → Returns R E (x >>= f)
  unfolding ◌>>=◌
  Returns-bind {x} {f} rx rf = record { at = λ m. Holds-continue (x m).0 f (x m).1 (rx.at m) rf }

module _ {A : Type 0} {Q R : A → Type 0} where
  Holds-weaken : (E : ℕ → Type 0) (r : Result A) → Holds Q E r → ((a : A) → Q a → R a) → Holds R E r
  Holds-weaken E (done a) q k = k a q
  Holds-weaken E (exited code) e k = e
  Holds-weaken E replaced h k = h

  pub Returns-weaken :
      {E : ℕ → Type 0} {x : Action A} → Returns Q E x → ((a : A) → Q a → R a) → Returns R E x
  Returns-weaken {E} {x} rx k = record { at = λ m. Holds-weaken E (x m).0 (rx.at m) k }

-- To know nothing of an action's value costs nothing.
module _ {A : Type 0} where
  Holds-Any : (r : Result A) → Holds Any Any r
  Holds-Any (done a) = tt
  Holds-Any (exited code) = tt
  Holds-Any replaced = tt

  pub Returns-Any : (x : Action A) → Returns Any Any x
  Returns-Any x = record { at = λ m. Holds-Any (x m).0 }

-- Actions of which nothing is known but that they go on.
module _ {E : ℕ → Type 0} where
  pub Returns-gets : {A : Type 0} (f : Machine → A) → Returns Any E (gets f)
  unfolding gets
  Returns-gets f = record { at = λ m. tt }

  pub Returns-modify : (f : Machine → Machine) → Returns Any E (modify f)
  unfolding modify
  Returns-modify f = record { at = λ m. tt }

  module _ (os : Os) where
    pub Returns-call : (c : Call) → Returns Any E (call os c)
    unfolding call
    Returns-call c = record { at = λ m. tt }

    pub Returns-say : (l : Level) → Returns Any E (say os l)
    unfolding say
    Returns-say l = record { at = λ m. tt }

    pub Returns-fatal :
        {A : Type 0} {Q : A → Type 0} (code : ℕ) → E code → Returns Q E (fatal os code)
    unfolding fatal
    Returns-fatal code e = Returns-bind (Returns-say warn_level) λ _ _. Returns-exit code e

-- The reply is what the kernel answers to the call at some time.
pub record IsAnswer (os : Os) (c : Call) (r : Reply) : Type 0 where
  pub asked : List Event
  pub same : os asked c ≡ r

pub Returns-IsAnswer : {E : ℕ → Type 0} (os : Os) (c : Call) → Returns (IsAnswer os c) E (call os c)
unfolding call
Returns-IsAnswer os c = record { at = λ m. record { asked = m.trace; same = refl } }
