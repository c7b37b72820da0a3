-- ===== src/Machine/Passes.antt =====
-- That an action goes on: it neither ends the process nor runs another program.
use earlyoom.Prelude.{ℕ, ◌≡◌, refl, ap, Bool, true, false, arith}
use earlyoom.Machine.{
  Call, Level, Os, Machine, Result, done, exited, replaced, Action, pure, continue, branch, ◌>>=◌,
  gets, modify, set_errno, call, say,
}
use earlyoom.Machine.Returns.{Any, Holds}
use earlyoom.Machine.Exits.{Exits}
use earlyoom.Machine.Calls.{
  Calls, Calls-pure, Calls-gets, Calls-call, Calls-say, Calls-bind, Calls-set_errno,
}

abbrev pub IsDone : {A : Type 0} → Result A → Type 0
IsDone (done a) = Unit
IsDone (exited code) = ⊥
IsDone replaced = ⊥

-- From every state the action goes on.
pub record Passes {A : Type 0} (x : Action A) : Type 0 where
  pub goes : (m : Machine) → IsDone (x m).0
  pub calls : Calls Any x

-- The value and the state with which an action went on.
pub record Outcome {A : Type 0} (x : Action A) (m : Machine) : Type 0 where
  pub value : A
  pub after : Machine
  pub ends : x m ≡ (done value, after)

done_outcome :
    {A : Type 0} (x : Action A) (m : Machine) (r : Result A) → IsDone r → (x m).0 ≡ r → Outcome x m
done_outcome x m (done a) h e = record {
  value = a;
  after = (x m).1;
  ends = ap (λ s. (s, (x m).1)) e;
}
done_outcome x m (exited code) h e = absurd h
done_outcome x m replaced h e = absurd h

pub outcome : {A : Type 0} (x : Action A) (m : Machine) → IsDone (x m).0 → Outcome x m
outcome x m h = done_outcome x m (x m).0 h refl

module _ {A : Type 0} where
  done-Holds : (E : ℕ → Type 0) (r : Result A) → IsDone r → Holds Any E r
  done-Holds E (done a) h = tt
  done-Holds E (exited code) h = absurd h
  done-Holds E replaced h = absurd h

  -- What goes on ends the process with no status.
  pub Passes-Exits : {E : ℕ → Type 0} {x : Action A} → Passes x → Exits E x
  Passes-Exits {E} {x} p = record { returns = record { at = λ m. done-Holds E (x m).0 (p.goes m) } }

  pub Passes-pure : (a : A) → Passes (pure a)
  unfolding pure
  Passes-pure a = record { goes = λ m. tt; calls = Calls-pure a }

  pub Passes-gets : (f : Machine → A) → Passes (gets f)
  unfolding gets
  Passes-gets f = record { goes = λ m. tt; calls = Calls-gets f }

  pub Passes-branch :
      {b : Bool} {x y : Action A}
      → (b ≡ true → Passes x)
      → (b ≡ false → Passes y)
      → Passes (branch b x y)
  unfolding branch
  Passes-branch {b = true} px py = px refl
  Passes-branch {b = false} px py = py refl

-- From one state, where it is known that the second one runs.
pub goes-branch :
    {A : Type 0} (b : Bool) (x y : Action A) (m : Machine)
    → b ≡ false
    → Passes y
    → IsDone (branch b x y m).0
unfolding branch
goes-branch true x y m e py = absurd (ground arith)
goes-branch false x y m e py = py.goes m

pub Passes-set_errno : (e : ℕ) → Passes (set_errno e)
unfolding modify
Passes-set_errno e = record { goes = λ m. tt; calls = Calls-set_errno e }

module _ (os : Os) where
  pub Passes-call : (c : Call) → Passes (call os c)
  unfolding call
  Passes-call c = record { goes = λ m. tt; calls = Calls-call os c tt }

  pub Passes-say : (l : Level) → Passes (say os l)
  unfolding say
  Passes-say l = record { goes = λ m. tt; calls = Calls-say os l tt }

module _ {A B : Type 0} where
  pub continue-goes :
      (r : Result A) (f : A → Action B) (m : Machine)
      → IsDone r
      → ((a : A) → Passes (f a))
      → IsDone (continue r f m).0
  continue-goes (done a) f m h k = (k a).goes m
  continue-goes (exited code) f m h k = h
  continue-goes replaced f m h k = h

  pub Passes-bind :
      {x : Action A} {f : A → Action B} → Passes x → ((a : A) → Passes (f a)) → Passes (x >>= f)
  unfolding ◌>>=◌
  Passes-bind {x} {f} px pf = record {
    goes = λ m. continue-goes (x m).0 f (x m).1 (px.goes m) pf;
    calls = Calls-bind px.calls λ a. (pf a).calls;
  }

pub ruleset passes_rules = (
  Passes-pure, Passes-gets, Passes-branch, Passes-bind, Passes-call, Passes-say, Passes-set_errno,
)
