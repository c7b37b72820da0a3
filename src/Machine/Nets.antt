-- ===== src/Machine/Nets.antt =====
-- Which files and process descriptors the program holds, one rule for each way to build an action.
-- /proc/meminfo, which stays open on purpose, is not counted, and the directory stream is one call.
pub mod Opens
use mathlib.Core.Path.{subst}
use earlyoom.Prelude.{
  sym, Bool-cases, inl, inr, ℕ, suc, ◌+◌, ◌≡◌, refl, arith, Bool, true, false, List, [], ◌∷◌,
  if◌then◌else◌,
}
use earlyoom.Prelude.Int.{ℤ, pos, ltb_ℤ}
use earlyoom.Machine.Returns.{Returns, Holds, Any, Returns-Any}
use earlyoom.Machine.{
  Call, meminfo_file, sysrq_trigger_file, stat_file, comm_file, cmdline_file, oom_score_file,
  oom_score_adj_file, ProcFile, fopen, fclose, fopen_write, open_write, pidfd_open, close, Level,
  Event, Reply, Os, Machine, Result, done, exited, replaced, Action, pure, exit, replace_process,
  continue, branch, ◌>>=◌, gets, modify, set_errno, call, say, fatal, failed,
}

-- How much each file and each descriptor counts. What holds for all weights holds of each of them.
pub record Weight : Type 0 where
  pub file : ProcFile → ℕ
  pub descriptor : ℤ → ℕ

-- What a reply adds: nothing where it is a failure.
abbrev pub unless_failed : Reply → ℕ → ℕ
unless_failed r k = if failed r then 0 else k

-- A descriptor below 0 is none.
abbrev pub weighed : Weight → ℤ → ℕ
weighed w fd = if ltb_ℤ fd (pos 0) then 0 else w.descriptor fd

abbrev pub opening : Weight → Call → Reply → ℕ
opening w (fopen meminfo_file) r = 0
opening w (fopen file) r = unless_failed r (w.file file)
opening w (fopen_write file) r = unless_failed r (w.file file)
opening w (open_write file) r = weighed w r.ret
opening w (pidfd_open pid) r = weighed w r.ret
opening w _ r = 0

abbrev pub closing : Weight → Call → ℕ
closing w (fclose file) = w.file file
closing w (close fd) = w.descriptor fd
closing w _ = 0

abbrev pub IsOther : ProcFile → Type 0
IsOther meminfo_file = ⊥
IsOther _ = Unit

-- What neither opens nor closes.
abbrev pub IsNeutral : Call → Type 0
IsNeutral (fopen meminfo_file) = Unit
IsNeutral (fopen file) = ⊥
IsNeutral (fopen_write file) = ⊥
IsNeutral (open_write file) = ⊥
IsNeutral (pidfd_open pid) = ⊥
IsNeutral (fclose file) = ⊥
IsNeutral (close fd) = ⊥
IsNeutral _ = Unit

IsNeutral-none :
    (w : Weight) (c : Call) (r : Reply) → IsNeutral c → (opening w c r ≡ 0) × (closing w c ≡ 0)
IsNeutral-none w (fopen meminfo_file) r h = (refl, refl)
IsNeutral-none w (fopen _) r h = absurd h
IsNeutral-none w (fopen_write file) r h = absurd h
IsNeutral-none w (open_write file) r h = absurd h
IsNeutral-none w (pidfd_open pid) r h = absurd h
IsNeutral-none w (fclose file) r h = absurd h
IsNeutral-none w (close fd) r h = absurd h
IsNeutral-none w _ r h = (refl, refl)

unfoldable pub opened : Weight → List Event → ℕ
opened w [] = 0
opened w ((c, r) ∷ events) = opening w c r + opened w events

unfoldable pub closed : Weight → List Event → ℕ
closed w [] = 0
closed w ((c, r) ∷ events) = closing w c + closed w events

-- With `n` held before, `held a` are held where the action gives `a`. What ends the process closes
-- everything.
abbrev Kept : {A : Type 0} → Weight → ℕ → (A → ℕ) → Result A → List Event → List Event → Type 0
Kept w n held (done a) t u = n + opened w u + closed w t ≡ held a + opened w t + closed w u
Kept w n held (exited code) t u = Unit
Kept w n held replaced t u = Unit

pub record Nets {A : Type 0} (w : Weight) (n : ℕ) (held : A → ℕ) (x : Action A) : Type 0 where
  pub at : (m : Machine) → Kept w n held (x m).0 m.trace (x m).1.trace

-- As many are held as before.
abbrev pub Stays : {A : Type 0} → Weight → ℕ → Action A → Type 0
Stays w n x = Nets w n (λ a. n) x

module _ {A : Type 0} {w : Weight} {n : ℕ} {held : A → ℕ} where
  pub Nets-pure : (a : A) → held a ≡ n → Nets w n held (pure a)
  unfolding pure
  Nets-pure a e = record { at = λ m. omega (arith, e) }

  pub Nets-exit : (code : ℕ) → Nets w n held (exit code)
  unfolding exit
  Nets-exit code = record { at = λ m. tt }

  pub Nets-replace : Nets w n held replace_process
  unfolding replace_process
  Nets-replace = record { at = λ m. tt }

  pub Nets-branch :
      {b : Bool} {x y : Action A}
      → (b ≡ true → Nets w n held x)
      → (b ≡ false → Nets w n held y)
      → Nets w n held (branch b x y)
  unfolding branch
  Nets-branch {b = true} nx ny = nx refl
  Nets-branch {b = false} nx ny = ny refl

module _ {A B : Type 0} where
  Kept-continue :
      (w : Weight) (Q : A → Type 0) (n : ℕ) (held : A → ℕ) (rest : B → ℕ) (r : Result A)
      (f : A → Action B) (t : List Event) (m : Machine)
      → Holds Q Any r
      → Kept w n held r t m.trace
      → ((a : A) → Q a → Nets w (held a) rest (f a))
      → Kept w n rest (continue r f m).0 t (continue r f m).1.trace
  Kept-continue w Q n held rest (done a) f t m q h k =
      Kept-more (f a m).0 (f a m).1.trace ((k a q).at m)
    where
      Kept-more :
          (s : Result B) (u : List Event) → Kept w (held a) rest s m.trace u → Kept w n rest s t u
      Kept-more (done b) u g = omega (arith, g, h)
      Kept-more (exited code) u g = tt
      Kept-more replaced u g = tt
  Kept-continue w Q n held rest (exited code) f t m q h k = tt
  Kept-continue w Q n held rest replaced f t m q h k = tt

  -- With what is known of the value.
  pub Nets-bind_known :
      {w : Weight} {Q : A → Type 0} {n : ℕ} {held : A → ℕ} {rest : B → ℕ} {x : Action A}
      {f : A → Action B}
      → Returns Q Any x
      → Nets w n held x
      → ((a : A) → Q a → Nets w (held a) rest (f a))
      → Nets w n rest (x >>= f)
  unfolding ◌>>=◌
  Nets-bind_known {w} {Q} {n} {held} {rest} {x} {f} rx nx nf = record {
    at = λ m. Kept-continue w Q n held rest (x m).0 f m.trace (x m).1 (rx.at m) (nx.at m) nf;
  }

  pub Nets-bind :
      {w : Weight} {n : ℕ} {held : A → ℕ} {rest : B → ℕ} {x : Action A} {f : A → Action B}
      → Nets w n held x
      → ((a : A) → Nets w (held a) rest (f a))
      → Nets w n rest (x >>= f)
  Nets-bind {x} nx nf = Nets-bind_known (Returns-Any x) nx λ a _. nf a

pub Returns-known :
    (os : Os) {Q : Reply → Type 0} (c : Call)
    → ((t : List Event) → Q (os t c))
    → Returns Q Any (call os c)
unfolding call
Returns-known os c known = record { at = λ m. known m.trace }

module _ {w : Weight} {n : ℕ} where
  pub Stays-pure : {A : Type 0} (a : A) → Stays w n (pure a)
  Stays-pure a = Nets-pure a refl

  pub Stays-gets : {A : Type 0} (f : Machine → A) → Stays w n (gets f)
  unfolding gets
  Stays-gets f = record { at = λ m. refl }

  pub Stays-modify :
      (f : Machine → Machine) → ((m : Machine) → (f m).trace ≡ m.trace) → Stays w n (modify f)
  unfolding modify
  Stays-modify f same = record { at = λ m. rw (same m) refl }

  pub Stays-set_errno : (e : ℕ) → Stays w n (set_errno e)
  Stays-set_errno e = Stays-modify _ (λ m. refl)

  pub Stays-bind :
      {A B : Type 0} {x : Action A} {f : A → Action B}
      → Stays w n x
      → ((a : A) → Stays w n (f a))
      → Stays w n (x >>= f)
  Stays-bind sx sf = Nets-bind sx sf

module _ (os : Os) {w : Weight} {n : ℕ} where
  pub Stays-call : (c : Call) → IsNeutral c → Stays w n (call os c)
  unfolding call opened closed
  Stays-call c h = record {
    at = λ m. let none = IsNeutral-none w c (os m.trace c) h in omega (arith, none.0, none.1);
  }

  pub Stays-say : (l : Level) → Stays w n (say os l)
  unfolding say opened closed
  Stays-say l = record { at = λ m. omega arith }

  pub Stays-fatal : {A : Type 0} {held : A → ℕ} (code : ℕ) → Nets w n held (fatal os code)
  unfolding fatal
  Stays-fatal code = Nets-bind (Stays-say _) λ _. Nets-exit code

  pub Nets-gain :
      (c : Call) (k : Reply → ℕ)
      → ((r : Reply) → opening w c r ≡ k r)
      → closing w c ≡ 0
      → Nets w n (λ r. n + k r) (call os c)
  unfolding call opened closed
  Nets-gain c k o e = record { at = λ m. omega (arith, o (os m.trace c), e) }

  pub Nets-pidfd : (pid : ℤ) → Nets w n (λ r. n + weighed w r.ret) (call os (pidfd_open pid))
  Nets-pidfd pid = Nets-gain _ (λ r. weighed w r.ret) (λ r. refl) refl

  Nets-lose :
      (c : Call) (k : ℕ)
      → ((r : Reply) → opening w c r ≡ 0)
      → closing w c ≡ k
      → Nets w (n + k) (λ r. n) (call os c)
  unfolding call opened closed
  Nets-lose c k o e = record { at = λ m. omega (arith, o (os m.trace c), e) }

  pub Nets-fclose : (file : ProcFile) → Nets w (n + w.file file) (λ r. n) (call os (fclose file))
  Nets-fclose file = Nets-lose _ _ (λ r. refl) refl

  pub Nets-close : (fd : ℤ) → Nets w (n + w.descriptor fd) (λ r. n) (call os (close fd))
  Nets-close fd = Nets-lose _ _ (λ r. refl) refl

pub ruleset stays_rules = (
  Stays-pure, Stays-gets, Stays-set_errno, Nets-branch, Stays-bind, Stays-call, Stays-say,
  Stays-fatal, Nets-exit, Nets-replace,
)
