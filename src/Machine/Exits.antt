-- ===== src/Machine/Exits.antt =====
-- With which statuses an action may end the process, one rule for each way to build an action.
use earlyoom.Prelude.{ℕ, ◌≡◌, Bool, true, false, List, [], ◌∷◌, ◌==◌, ◌||◌}
use earlyoom.Machine.{
  Call, Level, Os, Machine, Result, done, exited, replaced, Action, pure, exit, replace_process,
  branch, ◌>>=◌, gets, modify, call, say, fatal,
}
use earlyoom.Machine.Returns.{
  Holds, Returns, Any, Returns-pure, Returns-exit, Returns-branch, Returns-bind, Returns-gets,
  Returns-modify, Returns-call, Returns-say, Returns-fatal,
}

-- The statuses of the program: 0 for -v and -h, 1 in a child process, and those of `fatal`.
abbrev pub statuses : List ℕ
statuses = 0 ∷ 1 ∷ 4 ∷ 5 ∷ 6 ∷ 13 ∷ 14 ∷ 15 ∷ 16 ∷ 102 ∷ 103 ∷ 104 ∷ []

abbrev is_in : ℕ → List ℕ → Bool
is_in n [] = false
is_in n (k ∷ list) = (n == k) || is_in n list

abbrev pub IsStatus : ℕ → Type 0
IsStatus code = is_in code statuses ≡ true

pub record Exits {A : Type 0} (E : ℕ → Type 0) (x : Action A) : Type 0 where
  pub returns : Returns Any E x

module _ {A : Type 0} {E : ℕ → Type 0} where
  pub Exits-pure : (a : A) → Exits E (pure a)
  Exits-pure a = record { returns = Returns-pure a tt }

  pub Exits-exit : (code : ℕ) → E code → Exits {A = A} E (exit code)
  Exits-exit code e = record { returns = Returns-exit code e }

  pub Exits-gets : (f : Machine → A) → Exits E (gets f)
  Exits-gets f = record { returns = Returns-gets f }

  pub Exits-replace : Exits {A = A} E replace_process
  unfolding replace_process
  Exits-replace = record { returns = record { at = λ m. tt } }

  pub Exits-branch :
      {b : Bool} {x y : Action A}
      → (b ≡ true → Exits E x)
      → (b ≡ false → Exits E y)
      → Exits E (branch b x y)
  Exits-branch ex ey = record {
    returns = Returns-branch (λ e. (ex e).returns) (λ e. (ey e).returns);
  }

pub Exits-bind :
    {A B : Type 0} {E : ℕ → Type 0} {x : Action A} {f : A → Action B}
    → Exits E x
    → ((a : A) → Exits E (f a))
    → Exits E (x >>= f)
Exits-bind ex ef = record { returns = Returns-bind ex.returns λ a _. (ef a).returns }

module _ {E : ℕ → Type 0} where
  pub Exits-modify : (f : Machine → Machine) → Exits E (modify f)
  Exits-modify f = record { returns = Returns-modify f }

  module _ (os : Os) where
    pub Exits-call : (c : Call) → Exits E (call os c)
    Exits-call c = record { returns = Returns-call os c }

    pub Exits-say : (l : Level) → Exits E (say os l)
    Exits-say l = record { returns = Returns-say os l }

    pub Exits-fatal : {A : Type 0} (code : ℕ) → E code → Exits {A = A} E (fatal os code)
    Exits-fatal code e = record { returns = Returns-fatal os code e }

-- What is known of the value may be forgotten, and the statuses may be more.
Holds-Exits :
    {A : Type 0} (Q : A → Type 0) {E F : ℕ → Type 0} (r : Result A)
    → Holds Q E r
    → ((code : ℕ) → E code → F code)
    → Holds Any F r
Holds-Exits Q (done a) q k = tt
Holds-Exits Q (exited code) e k = k code e
Holds-Exits Q replaced h k = tt

pub Returns-Exits :
    {A : Type 0} {Q : A → Type 0} {E F : ℕ → Type 0} {x : Action A}
    → Returns Q E x
    → ((code : ℕ) → E code → F code)
    → Exits F x
Returns-Exits {Q} {x} rx k = record {
  returns = record { at = λ m. Holds-Exits Q (x m).0 (rx.at m) k };
}

pub ruleset exits_rules = (
  Exits-pure, Exits-gets, Exits-replace, Exits-branch, Exits-bind, Exits-modify, Exits-call,
  Exits-say,
)
