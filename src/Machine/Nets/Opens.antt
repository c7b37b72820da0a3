-- ===== src/Machine/Nets/Opens.antt =====
-- What opens a file or a process descriptor, with what follows where it fails and where it does not.
use mathlib.Core.Path.{subst}
use earlyoom.Prelude.{sym, Bool-cases, inl, inr, ℕ, ◌+◌, ◌≡◌, refl, arith, true, false, List}
use earlyoom.Prelude.Int.{ℤ, pos, ltb_ℤ}
use earlyoom.Machine.{
  Call, meminfo_file, sysrq_trigger_file, stat_file, comm_file, cmdline_file, oom_score_file,
  oom_score_adj_file, ProcFile, fopen, fopen_write, open_write, pidfd_open, Event, Reply, Os,
  Action, branch, ◌>>=◌, call, failed,
}
use earlyoom.Machine.Nets.{
  Weight, unless_failed, weighed, opening, closing, IsOther, Nets, Nets-branch, Nets-bind,
  Nets-bind_known, Nets-gain, Nets-pidfd, Returns-known,
}

-- More is held where the reply is no failure.
Nets-unless_failed :
    {A : Type 0} {w : Weight} {n : ℕ} {held : A → ℕ} {x : Action A} (r : Reply) (k : ℕ)
    → (failed r ≡ true → Nets w n held x)
    → (failed r ≡ false → Nets w (n + k) held x)
    → Nets w (n + unless_failed r k) held x
Nets-unless_failed {w} {n} {held} {x} r k bad good = elim (Bool-cases (failed r)) [
  | inl e ↦
      let same : n + unless_failed r k ≡ n = rw e (omega arith) in
      subst (λ k. Nets w k held x) (sym same) (bad e)
  | inr e ↦
      let more : n + unless_failed r k ≡ n + k = rw e refl in
      subst (λ k. Nets w k held x) (sym more) (good e)
]

pub Nets-weighed :
    {A : Type 0} {w : Weight} {n : ℕ} {held : A → ℕ} {x : Action A} (fd : ℤ)
    → (ltb_ℤ fd (pos 0) ≡ true → Nets w n held x)
    → (ltb_ℤ fd (pos 0) ≡ false → Nets w (n + w.descriptor fd) held x)
    → Nets w (n + weighed w fd) held x
Nets-weighed {w} {n} {held} {x} fd bad good = elim (Bool-cases (ltb_ℤ fd (pos 0))) [
  | inl e ↦
      let same : n + weighed w fd ≡ n = rw e (omega arith) in
      subst (λ k. Nets w k held x) (sym same) (bad e)
  | inr e ↦
      let more : n + weighed w fd ≡ n + w.descriptor fd = rw e refl in
      subst (λ k. Nets w k held x) (sym more) (good e)
]

-- Of a file that is counted.
opening-other :
    (w : Weight) (file : ProcFile) (r : Reply)
    → IsOther file
    → opening w (fopen file) r ≡ unless_failed r (w.file file)
opening-other w meminfo_file r h = absurd h
opening-other w sysrq_trigger_file r h = refl
opening-other w (stat_file pid) r h = refl
opening-other w (comm_file pid) r h = refl
opening-other w (cmdline_file pid) r h = refl
opening-other w (oom_score_file pid) r h = refl
opening-other w (oom_score_adj_file pid) r h = refl

module _ (os : Os) {A : Type 0} {w : Weight} {n : ℕ} {held : A → ℕ} where
  -- What is known of every reply is known of this one.
  pub Nets-pidfd_open :
      (Q : Reply → Type 0) (f : Reply → Action A) (pid : ℤ)
      → ((t : List Event) → Q (os t (pidfd_open pid)))
      → ((r : Reply) → Q r → failed r ≡ true → Nets w n held (f r))
      → ((r : Reply) → Q r → failed r ≡ false → Nets w (n + w.descriptor r.ret) held (f r))
      → Nets w n held (call os (pidfd_open pid) >>= f)
  Nets-pidfd_open Q f pid known bad good =
      Nets-bind_known {Q = Q} (Returns-known os _ known) (Nets-pidfd os pid)
        λ r q. Nets-weighed r.ret (bad r q) (good r q)

  -- The failure is looked at right away.
  module _ {x y : Reply → Action A} (nx : (r : Reply) → Nets w n held (x r)) where
    pub Nets-open_write :
        ((r : Reply) → Nets w (n + w.descriptor r.ret) held (y r))
        → (file : ProcFile)
        → Nets w n held (call os (open_write file) >>= λ r. branch (failed r) (x r) (y r))
    Nets-open_write ny file =
        Nets-bind (Nets-gain os _ (λ r. weighed w r.ret) (λ r. refl) refl) λ r.
          Nets-weighed r.ret (λ bad. Nets-branch (λ _. nx r) λ good. absurd (cc))
            λ good. Nets-branch (λ bad. absurd (cc)) λ _. ny r

    Nets-checked :
        (c : Call) (k : ℕ)
        → ((r : Reply) → opening w c r ≡ unless_failed r k)
        → closing w c ≡ 0
        → ((r : Reply) → Nets w (n + k) held (y r))
        → Nets w n held (call os c >>= λ r. branch (failed r) (x r) (y r))
    Nets-checked c k o e ny = Nets-bind (Nets-gain os c (λ r. unless_failed r k) o e) λ r.
        Nets-unless_failed r k (λ bad. Nets-branch (λ _. nx r) λ good. absurd (cc))
          λ good. Nets-branch (λ bad. absurd (cc)) λ _. ny r

    pub Nets-fopen_write :
        (file : ProcFile)
        → ((r : Reply) → Nets w (n + w.file file) held (y r))
        → Nets w n held (call os (fopen_write file) >>= λ r. branch (failed r) (x r) (y r))
    Nets-fopen_write file ny = Nets-checked _ (w.file file) (λ r. refl) refl ny

    pub Nets-fopen :
        (file : ProcFile)
        → ((r : Reply) → Nets w (n + w.file file) held (y r))
        → IsOther file
        → Nets w n held (call os (fopen file) >>= λ r. branch (failed r) (x r) (y r))
    Nets-fopen file ny h =
        Nets-checked (fopen file) (w.file file) (λ r. opening-other w file r h) refl ny
