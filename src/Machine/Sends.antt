-- ===== src/Machine/Sends.antt =====
-- That a call is made, one rule for each way to build an action.
use mathlib.Core.List.{append_assoc}
use earlyoom.Prelude.{
  ◌≡◌, refl, sym, ◌∙◌, ap, Bool, true, false, List, [], ◌∷◌, ◌++◌, ◌⊎◌, inl, inr, if◌then◌else◌,
  arith,
}
use earlyoom.Machine.{
  Call, Event, Os, Machine, Result, done, exited, replaced, Action, continue, branch, ◌>>=◌, call,
}
use earlyoom.Machine.Returns.{Any}
use earlyoom.Machine.Passes.{IsDone, Passes}
use earlyoom.Machine.Calls.{Adds, Adds-refl, Calls, Calls-weaken}

abbrev pub Occurs : Call → List Event → Type 0
Occurs c [] = ⊥
Occurs c (e ∷ events) = (e.0 ≡ c) ⊎ Occurs c events

Occurs-before : (c : Call) (new old : List Event) → Occurs c old → Occurs c (new ++ old)
Occurs-before c [] old h = h
Occurs-before c (e ∷ new) old h = inr (Occurs-before c new old h)

Occurs-after : (c : Call) (new old : List Event) → Occurs c new → Occurs c (new ++ old)
Occurs-after c [] old h = absurd h
Occurs-after c (e ∷ new) old (inl h) = inl h
Occurs-after c (e ∷ new) old (inr h) = inr (Occurs-after c new old h)

-- What the second trace has before the first one contains the call.
pub record Did (c : Call) (t u : List Event) : Type 0 where
  pub new : List Event
  pub split : u ≡ new ++ t
  pub among : Occurs c new

module _ {c : Call} {t u v : List Event} where
  Did-before : Adds Any t u → Did c u v → Did c t v
  Did-before a b = record {
    new = b.new ++ a.new;
    split = b.split ∙ ap (λ s. b.new ++ s) a.split ∙ sym (append_assoc b.new a.new t);
    among = Occurs-after c b.new a.new b.among;
  }

  Did-after : Did c t u → Adds Any u v → Did c t v
  Did-after a b = record {
    new = b.new ++ a.new;
    split = b.split ∙ ap (λ s. b.new ++ s) a.split ∙ sym (append_assoc b.new a.new t);
    among = Occurs-before c b.new a.new a.among;
  }

-- To forget which calls are made.
pub Calls-Any : {A : Type 0} {P : Call → Type 0} {x : Action A} → Calls P x → Calls Any x
Calls-Any cx = Calls-weaken (λ c h. tt) cx

-- From every state the action makes the call, however it ends.
pub record Sends {A : Type 0} (c : Call) (x : Action A) : Type 0 where
  pub at : (m : Machine) → Did c m.trace (x m).1.trace

module _ {A : Type 0} where
  pub Sends-branch :
      {b : Bool} {c : Call} {x y : Action A}
      → (b ≡ true → Sends c x)
      → (b ≡ false → Sends c y)
      → Sends c (branch b x y)
  unfolding branch
  Sends-branch {b = true} sx sy = sx refl
  Sends-branch {b = false} sx sy = sy refl

module _ (os : Os) where
  pub Sends-call : (c : Call) → Sends c (call os c)
  unfolding call
  Sends-call c = record {
    at = λ m. record { new = (c, os m.trace c) ∷ []; split = refl; among = inl refl };
  }

module _ {A B : Type 0} where
  continue-Adds :
      (r : Result A) (f : A → Action B) (m : Machine)
      → ((a : A) → Calls Any (f a))
      → Adds Any m.trace (continue r f m).1.trace
  continue-Adds (done a) f m k = (k a).at m
  continue-Adds (exited code) f m k = Adds-refl m.trace
  continue-Adds replaced f m k = Adds-refl m.trace

  module _ {c : Call} where
    -- The first action makes the call.
    pub Sends-first :
        {x : Action A} {f : A → Action B}
        → Sends c x
        → ((a : A) → Calls Any (f a))
        → Sends c (x >>= f)
    unfolding ◌>>=◌
    Sends-first {x} {f} sx k = record {
      at = λ m. Did-after (sx.at m) (continue-Adds (x m).0 f (x m).1 k);
    }

    continue-Did :
        (r : Result A) (f : A → Action B) (m : Machine)
        → IsDone r
        → ((a : A) → Sends c (f a))
        → Did c m.trace (continue r f m).1.trace
    continue-Did (done a) f m h k = (k a).at m
    continue-Did (exited code) f m h k = absurd h
    continue-Did replaced f m h k = absurd h

    -- What follows makes it.
    pub Sends-then :
        {x : Action A} {f : A → Action B} → Passes x → ((a : A) → Sends c (f a)) → Sends c (x >>= f)
    unfolding ◌>>=◌
    Sends-then {x} {f} px k = record {
      at = λ m. Did-before (px.calls.at m) (continue-Did (x m).0 f (x m).1 (px.goes m) k);
    }

    -- From one state, where the first action is known to go on.
    pub Did-bind :
        (x : Action A) (f : A → Action B) (m m' : Machine) (a : A)
        → x m ≡ (done a, m')
        → Calls Any x
        → Did c m'.trace (f a m').1.trace
        → Did c m.trace ((x >>= f) m).1.trace
    unfolding ◌>>=◌
    Did-bind x f m m' a e cx h = Did-before (cx.at m) (rw e h)

    -- From one state, where the first action makes the call.
    pub Did-first :
        (x : Action A) (f : A → Action B) (m : Machine)
        → Did c m.trace (x m).1.trace
        → ((a : A) → Calls Any (f a))
        → Did c m.trace ((x >>= f) m).1.trace
    unfolding ◌>>=◌
    Did-first x f m h k = Did-after h (continue-Adds (x m).0 f (x m).1 k)

-- From one state, where it is known which of the two runs.
pub Did-branch :
    {A : Type 0} (b c : Bool) (x y : Action A) (m : Machine) (k : Call)
    → b ≡ c
    → Did k m.trace ((if c then x else y) m).1.trace
    → Did k m.trace (branch b x y m).1.trace
unfolding branch
Did-branch true true x y m k e h = h
Did-branch true false x y m k e h = absurd (ground arith)
Did-branch false true x y m k e h = absurd (ground arith)
Did-branch false false x y m k e h = h
