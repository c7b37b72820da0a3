-- ===== src/Machine/Steady.antt =====
-- A world that stands still: what a call answers does not depend on the calls before it. There, most
-- actions give the same value in every state.
use mathlib.Core.Path.{subst}
use earlyoom.Machine.Returns.{Holds, Returns, Any}
use earlyoom.Prelude.{◌≡◌, refl, inl, inr, Bool-cases, ap, Bool, true, false, ℕ, List, []}
use earlyoom.Machine.{
  Call, Level, Event, Reply, Os, Machine, done, Action, ◌>>=◌, pure, branch, gets, call, say,
  failed,
}

pub record IsStill (os : Os) : Type 0 where
  pub same : (t u : List Event) (c : Call) → os t c ≡ os u c

-- Whatever the state is, the action goes on with the value.
pub record Gives {A : Type 0} (x : Action A) (a : A) : Type 0 where
  pub at : (m : Machine) → (x m).0 ≡ done a

pub record Steady {A : Type 0} (x : Action A) : Type 0 where
  pub value : A
  pub gives : Gives x value

pub Gives-bind :
    {A B : Type 0} {x : Action A} (f : A → Action B) (a : A) (b : B)
    → Gives x a
    → Gives (f a) b
    → Gives (x >>= f) b
unfolding ◌>>=◌
Gives-bind f a b gx gf = record { at = λ m. rw (gx.at m) (gf.at _) }

pub done_value : {A : Type 0} {a b : A} → done a ≡ done b → a ≡ b
done_value h = cc

-- What holds of the value that is returned holds of the value that is always given.
pub Returns-Gives :
    {A : Type 0} {Q : A → Type 0} {x : Action A} {a : A}
    → Machine
    → Returns Q Any x
    → Gives x a
    → Q a
Returns-Gives {Q} m rx g = subst (Holds Q Any) (g.at m) (rx.at m)

-- In one state, the value is the one that is always given.
pub Gives-done :
    {A : Type 0} {x : Action A} {a b : A} {m m' : Machine} → Gives x a → x m ≡ (done b, m') → a ≡ b
Gives-done {m} g h = let k = g.at m in cc

pub Gives-state :
    {A : Type 0} {x : Action A} {a : A} → Gives x a → (m : Machine) → x m ≡ (done a, (x m).1)
Gives-state {x} g m = ap (λ r. (r, (x m).1)) (g.at m)

-- Two values of one action are one value.
pub Gives-unique :
    {A : Type 0} {x : Action A} {a b : A} (m : Machine) → Gives x a → Gives x b → a ≡ b
Gives-unique m ga gb = let h = ga.at m in let k = gb.at m in cc

pub Gives-Steady : {A : Type 0} {x : Action A} {a : A} → Gives x a → Steady x
Gives-Steady {a} g = record { value = a; gives = g }

module _ {A : Type 0} where
  pub Gives-pure : (a : A) → Gives (pure a) a
  unfolding pure
  Gives-pure a = record { at = λ m. refl }

  pub Steady-pure : (a : A) → Steady (pure a)
  Steady-pure a = record { value = a; gives = Gives-pure a }

  pub Steady-branch :
      {b : Bool} {x y : Action A}
      → (b ≡ true → Steady x)
      → (b ≡ false → Steady y)
      → Steady (branch b x y)
  unfolding branch
  Steady-branch {b = true} sx sy = sx refl
  Steady-branch {b = false} sx sy = sy refl

pub Steady-bind :
    {A B : Type 0} {x : Action A} {f : A → Action B}
    → Steady x
    → ((a : A) → Steady (f a))
    → Steady (x >>= f)
Steady-bind {f} sx sf = record {
  value = (sf sx.value).value;
  gives = Gives-bind f sx.value _ sx.gives (sf sx.value).gives;
}

module _ (os : Os) where
  pub Steady-say : (l : Level) → Steady (say os l)
  unfolding say
  Steady-say l = record { value = tt; gives = record { at = λ m. refl } }

  module _ (still : IsStill os) where
    pub Gives-call : (c : Call) → Gives (call os c) (os [] c)
    unfolding call
    Gives-call c = record { at = λ m. ap (λ r. done r) (still.same m.trace [] c) }

    pub Steady-call : (c : Call) → Steady (call os c)
    Steady-call c = record { value = os [] c; gives = Gives-call c }

    -- A call that may fail, and behind the failure a look at `errno`, which is the call's own.
    pub Steady-or_errno :
        {A : Type 0} (g : ℕ → A) (k : Reply → Action A) (c : Call)
        → ((r : Reply) → Steady (k r))
        → Steady
            (call os c >>= λ r. branch (failed r) (gets (λ m. m.errno) >>= λ e. pure (g e)) (k r))
    unfolding call ◌>>=◌ gets pure branch
    Steady-or_errno g k c sk =
        let r = os [] c in
        elim (Bool-cases (failed r)) [
          | inl e ↦ record {
            value = g r.err;
            gives = record { at = λ m. rw (still.same m.trace [] c) (rw e refl) };
          }
          | inr e ↦ record {
            value = (sk r).value;
            gives = record { at = λ m. rw (still.same m.trace [] c) (rw e ((sk r).gives.at _)) };
          }
        ]

pub ruleset steady_rules = (Steady-pure, Steady-branch, Steady-bind, Steady-call, Steady-say)
