-- ===== src/Machine/Calls.antt =====
-- Which calls an action makes, one rule for each way to build an action.
use mathlib.Core.List.{append_assoc}
use earlyoom.Prelude.{
  ℕ, ◌≡◌, refl, ◌∙◌, ap, sym, Bool, true, false, List, [], ◌∷◌, ◌++◌, All, All-append,
  if◌then◌else◌, arith,
}
use earlyoom.Machine.{
  Call, print, Level, warn_level, Event, Os, Machine, Result, done, exited, replaced, Action, pure,
  exit, replace_process, continue, branch, ◌>>=◌, gets, modify, set_errno, call, say, fatal,
}
use earlyoom.Machine.Returns.{Returns, Holds, Any}

-- The calls that the second trace has before the first one all have the property.
pub record Adds (P : Call → Type 0) (t u : List Event) : Type 0 where
  pub new : List Event
  pub split : u ≡ new ++ t
  pub each : All (λ e. P e.0) new

module _ {P : Call → Type 0} where
  pub Adds-refl : (t : List Event) → Adds P t t
  Adds-refl t = record { new = []; split = refl; each = tt }

  pub Adds-trans : {t u v : List Event} → Adds P t u → Adds P u v → Adds P t v
  Adds-trans {t} a b = record {
    new = b.new ++ a.new;
    split = b.split ∙ ap (λ s. b.new ++ s) a.split ∙ sym (append_assoc b.new a.new t);
    each = All-append _ b.new a.new b.each a.each;
  }

All-weaken :
    {P R : Call → Type 0} (events : List Event)
    → ((c : Call) → P c → R c)
    → All (λ e. P e.0) events
    → All (λ e. R e.0) events
All-weaken [] k h = tt
All-weaken (e ∷ events) k (h, hs) = (k e.0 h, All-weaken events k hs)

-- Every call that the action makes has the property, however it ends.
pub record Calls {A : Type 0} (P : Call → Type 0) (x : Action A) : Type 0 where
  pub at : (m : Machine) → Adds P m.trace (x m).1.trace

pub Calls-weaken :
    {A : Type 0} {P R : Call → Type 0} {x : Action A}
    → ((c : Call) → P c → R c)
    → Calls P x
    → Calls R x
Calls-weaken k cx = record {
  at = λ m.
      let a = cx.at m in record { new = a.new; split = a.split; each = All-weaken a.new k a.each };
}

module _ {A : Type 0} {P : Call → Type 0} where
  pub Calls-pure : (a : A) → Calls P (pure a)
  unfolding pure
  Calls-pure a = record { at = λ m. Adds-refl m.trace }

  pub Calls-exit : (code : ℕ) → Calls {A = A} P (exit code)
  unfolding exit
  Calls-exit code = record { at = λ m. Adds-refl m.trace }

  pub Calls-replace : Calls {A = A} P replace_process
  unfolding replace_process
  Calls-replace = record { at = λ m. Adds-refl m.trace }

  pub Calls-gets : (f : Machine → A) → Calls P (gets f)
  unfolding gets
  Calls-gets f = record { at = λ m. Adds-refl m.trace }

  pub Calls-branch :
      {b : Bool} {x y : Action A}
      → (b ≡ true → Calls P x)
      → (b ≡ false → Calls P y)
      → Calls P (branch b x y)
  unfolding branch
  Calls-branch {b = true} cx cy = cx refl
  Calls-branch {b = false} cx cy = cy refl

module _ {P : Call → Type 0} where
  pub Calls-modify :
      (f : Machine → Machine) → ((m : Machine) → (f m).trace ≡ m.trace) → Calls P (modify f)
  unfolding modify
  Calls-modify f same = record { at = λ m. record { new = []; split = same m; each = tt } }

  pub Calls-set_errno : (e : ℕ) → Calls P (set_errno e)
  Calls-set_errno e = Calls-modify _ (λ m. refl)

module _ {A B : Type 0} {P : Call → Type 0} where
  Calls-continue :
      (r : Result A) (f : A → Action B) → ((a : A) → Calls P (f a)) → Calls P (continue r f)
  Calls-continue (done a) f k = k a
  Calls-continue (exited code) f k = record { at = λ m. Adds-refl m.trace }
  Calls-continue replaced f k = record { at = λ m. Adds-refl m.trace }

  pub Calls-bind :
      {x : Action A} {f : A → Action B} → Calls P x → ((a : A) → Calls P (f a)) → Calls P (x >>= f)
  unfolding ◌>>=◌
  Calls-bind {x} {f} cx cf = record {
    at = λ m. Adds-trans (cx.at m) ((Calls-continue (x m).0 f cf).at (x m).1);
  }

  Adds-continue :
      {Q : A → Type 0} (r : Result A) (f : A → Action B) (m : Machine)
      → Holds Q Any r
      → ((a : A) → Q a → Calls P (f a))
      → Adds P m.trace (continue r f m).1.trace
  Adds-continue (done a) f m q k = (k a q).at m
  Adds-continue (exited code) f m q k = Adds-refl m.trace
  Adds-continue replaced f m q k = Adds-refl m.trace

  -- With what is known of the value.
  pub Calls-bind_known :
      {Q : A → Type 0} {x : Action A} {f : A → Action B}
      → Returns Q Any x
      → Calls P x
      → ((a : A) → Q a → Calls P (f a))
      → Calls P (x >>= f)
  unfolding ◌>>=◌
  Calls-bind_known {Q} {x} {f} rx cx cf = record {
    at = λ m. Adds-trans (cx.at m) (Adds-continue (x m).0 f (x m).1 (rx.at m) cf);
  }

  -- From one state, where the first action is known to go on.
  pub Adds-bind :
      (x : Action A) (f : A → Action B) (m m' : Machine) (a : A)
      → x m ≡ (done a, m')
      → Calls P x
      → Calls P (f a)
      → Adds P m.trace ((x >>= f) m).1.trace
  unfolding ◌>>=◌
  Adds-bind x f m m' a e cx cf = Adds-trans (cx.at m) (rw e (cf.at m'))

  -- The same, where what follows is known from one state only.
  pub Adds-then :
      (x : Action A) (f : A → Action B) (m m' : Machine) (a : A)
      → x m ≡ (done a, m')
      → Calls P x
      → Adds P m'.trace (f a m').1.trace
      → Adds P m.trace ((x >>= f) m).1.trace
  unfolding ◌>>=◌
  Adds-then x f m m' a e cx h = Adds-trans (cx.at m) (rw e h)

  -- The first action is known from one state.
  pub Adds-first :
      (x : Action A) (f : A → Action B) (m : Machine)
      → Adds P m.trace (x m).1.trace
      → ((a : A) → Calls P (f a))
      → Adds P m.trace ((x >>= f) m).1.trace
  unfolding ◌>>=◌
  Adds-first x f m h k = Adds-trans h ((Calls-continue (x m).0 f k).at (x m).1)

-- From one state, where it is known which of the two runs.
pub Adds-branch :
    {A : Type 0} {P : Call → Type 0} (b c : Bool) (x y : Action A) (m : Machine)
    → b ≡ c
    → Adds P m.trace ((if c then x else y) m).1.trace
    → Adds P m.trace (branch b x y m).1.trace
unfolding branch
Adds-branch true true x y m e h = h
Adds-branch true false x y m e h = absurd (ground arith)
Adds-branch false true x y m e h = absurd (ground arith)
Adds-branch false false x y m e h = h

module _ (os : Os) {P : Call → Type 0} where
  pub Calls-call : (c : Call) → P c → Calls P (call os c)
  unfolding call
  Calls-call c p = record {
    at = λ m. record { new = (c, os m.trace c) ∷ []; split = refl; each = (p, tt) };
  }

  pub Calls-say : (l : Level) → P (print l) → Calls P (say os l)
  unfolding say
  Calls-say l p = record {
    at = λ m. record { new = (print l, os m.trace (print l)) ∷ []; split = refl; each = (p, tt) };
  }

  pub Calls-fatal : {A : Type 0} (code : ℕ) → P (print warn_level) → Calls {A = A} P (fatal os code)
  unfolding fatal
  Calls-fatal code p = Calls-bind (Calls-say warn_level p) λ _. Calls-exit code

pub ruleset calls_rules = (
  Calls-pure, Calls-exit, Calls-replace, Calls-gets, Calls-branch, Calls-set_errno, Calls-bind,
  Calls-call, Calls-say, Calls-fatal,
)
