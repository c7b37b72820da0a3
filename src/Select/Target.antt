-- ===== src/Select/Target.antt =====
-- The checks of `is_larger` in kill.c: which processes pass them.
use earlyoom.Prelude.{
  ◌≡◌, ◌≢◌, refl, ap, ◌∙◌, inl, inr, Bool-cases, Bool, true, false, not, ◌||◌, ◌⊎◌, Option, none,
  some, arith,
}
use earlyoom.ProcPid.{PidStat}
use earlyoom.Prelude.Int.{ne_of_==ℤ, ℤ, pos, negsuc, ltb_ℤ, ◌==ℤ◌, ◌<ℤ◌}
use earlyoom.Prelude.Text.{Bytes}
use earlyoom.Args.{Args}
use earlyoom.Machine.{Os, Action, pure, branch, ◌>>=◌}
use earlyoom.Machine.Returns.{Returns, Any, Returns-pure, Returns-branch, Returns-bind, Returns-Any}
use earlyoom.Select.{
  is_some, vmrss_prefer, vmrss_avoid, oom_score_prefer, oom_score_avoid, ProcInfo, Verdict, matches,
  ◌▸◌, check_pid, check_kernel_thread, check_root, check_name, compare_with, take_stat, read_stat,
  read_oom_score, check_adj, measure, is_larger, adjust, warn_zombie, accept, refuse,
}

-- What is known of the process where the verdict is true.
pub record Judges (Q : ProcInfo → Type 0) (x : Action Verdict) : Type 0 where
  pub returns : Returns (λ v. v.0 ≡ true → Q v.1) Any x

module _ {Q : ProcInfo → Type 0} where
  pub Judges-accept : (c : ProcInfo) → Q c → Judges Q (accept c)
  Judges-accept c q = record { returns = Returns-pure _ (λ _. q) }

  pub Judges-refuse : (c : ProcInfo) → Judges Q (refuse c)
  Judges-refuse c = record { returns = Returns-pure _ (λ e. cc) }

  pub Judges-pure : (ok : Bool) (c : ProcInfo) → Q c → Judges Q (pure (ok, c))
  Judges-pure ok c q = record { returns = Returns-pure _ (λ _. q) }

  pub Judges-branch :
      {b : Bool} {x y : Action Verdict}
      → (b ≡ true → Judges Q x)
      → (b ≡ false → Judges Q y)
      → Judges Q (branch b x y)
  Judges-branch jx jy = record {
    returns = Returns-branch (λ e. (jx e).returns) (λ e. (jy e).returns);
  }

  pub Judges-bind :
      {A : Type 0} {P : A → Type 0} {x : Action A} {f : A → Action Verdict}
      → Returns P Any x
      → ((a : A) → P a → Judges Q (f a))
      → Judges Q (x >>= f)
  Judges-bind rx jf = record { returns = Returns-bind rx λ a p. (jf a p).returns }

pub Judges-also :
    {Q R : ProcInfo → Type 0} {x : Action Verdict} {f : ProcInfo → Action Verdict}
    → Judges Q x
    → ((c : ProcInfo) → Q c → Judges R (f c))
    → Judges R (x ▸ f)
unfolding ◌▸◌
Judges-also jx jf =
    Judges-bind jx.returns λ v a. Judges-branch (λ e. jf v.1 (a e)) (λ _. Judges-refuse v.1)

-- The tests that a victim has passed.
abbrev pub NotInit : ProcInfo → Type 0
NotInit c = pos 2 <ℤ c.pid

module _ {W : Type 0} (args : Args W) where
  abbrev pub NotRoot : ProcInfo → Type 0
  NotRoot c = (args.ignore_root_user ≡ false) ⊎ (pos 0 <ℤ c.uid)

  pub record IsTarget (c : ProcInfo) : Type 0 where
    pub not_init : pos 2 <ℤ c.pid
    pub not_root : (args.ignore_root_user ≡ false) ⊎ (pos 0 <ℤ c.uid)
    pub not_kernel_thread : c.stat.ppid ≢ pos 2
    pub not_exempt : c.oom_score_adj ≢ negsuc 999

positive : (a : ℤ) → ltb_ℤ a (pos 0) ≡ false → (a ==ℤ pos 0) ≡ false → pos 0 <ℤ a
positive a h e = ground arith

module _ {W : Type 0} (os : Os) (args : Args W) where
  check_pid-Judges : (c : ProcInfo) → Judges NotInit (check_pid c)
  unfolding check_pid
  check_pid-Judges c = Judges-branch (λ _. Judges-refuse c) (λ e. Judges-accept c (ground arith))

  -- What is known behind the first two checks.
  abbrev Allowed : ProcInfo → Type 0
  Allowed c = NotInit c × NotRoot args c

  check_root-Judges : (c : ProcInfo) → NotInit c → Judges Allowed (check_root os args c)
  unfolding check_root
  check_root-Judges c h =
      Judges-branch (λ e. Judges-accept c (h, inl (ground arith)))
        λ _. Judges-bind (Returns-Any _) λ res _.
          Judges-branch (λ _. Judges-refuse c)
            λ low.
              Judges-branch (λ _. Judges-refuse _)
                λ e. Judges-accept _ (h, inr (positive res low e))

  take_stat-Judges :
      (c : ProcInfo) (stat : Option PidStat) → Allowed c → Judges Allowed (take_stat os c stat)
  unfolding take_stat
  take_stat-Judges c none h = Judges-refuse c
  take_stat-Judges c (some s) h = Judges-bind (Returns-Any _) λ page _. Judges-accept _ h

  read_stat-Judges : (c : ProcInfo) → Allowed c → Judges Allowed (read_stat os c)
  unfolding read_stat
  read_stat-Judges c h = Judges-bind (Returns-Any _) λ stat _. take_stat-Judges c stat h

  -- What is known behind the check for a kernel thread.
  abbrev User : ProcInfo → Type 0
  User c = Allowed c × (c.stat.ppid ≢ pos 2)

  check_kernel_thread-Judges : (c : ProcInfo) → Allowed c → Judges User (check_kernel_thread c)
  unfolding check_kernel_thread
  check_kernel_thread-Judges c h =
      Judges-branch (λ _. Judges-refuse c) λ e. Judges-accept c (h, ne_of_==ℤ _ _ e)

  read_oom_score-Judges : (c : ProcInfo) → User c → Judges User (read_oom_score os c)
  unfolding read_oom_score
  read_oom_score-Judges c h =
      Judges-bind (Returns-Any _)
        λ res _. Judges-branch (λ _. Judges-refuse c) λ _. Judges-accept _ h

  -- A name that is known not to match --ignore.
  abbrev pub Measured : ProcInfo → Type 0
  Measured c = User c × (matches args.ignore_regex c.name ≡ false)

  adjust-User :
      (hit : Bool) (rss score : ℤ) (c : ProcInfo)
      → User c
      → User (adjust args hit rss score c) × ((adjust args hit rss score c).name ≡ c.name)
  unfolding adjust
  adjust-User false rss score c h = (h, refl)
  adjust-User true rss score c h = elim (Bool-cases args.sort_by_rss) [
    | inl e ↦ rw e (h, refl)
    | inr e ↦ rw e (h, refl)
  ]

  no_regex :
      (a b : Bool) (regex : Option (Bytes → Bool)) (name : Bytes)
      → not (a || b || is_some regex) ≡ true
      → matches regex name ≡ false
  no_regex a b none name e = refl
  no_regex a b (some regex) name e = ground arith

  check_name-Judges : (c : ProcInfo) → User c → Judges Measured (check_name os args c)
  unfolding check_name
  check_name-Judges c h =
      Judges-branch
        (λ e. Judges-accept c (
          h,
          no_regex (is_some args.prefer_regex) (is_some args.avoid_regex) args.ignore_regex c.name
              e,
        ))
        λ _. Judges-bind (Returns-Any _) λ r _.
          let named = record c { name = r.1 } in
          let hit = matches args.prefer_regex r.1 in
          let miss = matches args.avoid_regex r.1 in
          let preferred = adjust args hit vmrss_prefer oom_score_prefer named in
          let p = adjust-User hit vmrss_prefer oom_score_prefer named h in
          let q = adjust-User miss vmrss_avoid oom_score_avoid preferred p.0 in
          Judges-branch (λ _. Judges-refuse _)
            λ _.
              Judges-branch (λ _. Judges-refuse _)
                λ e. Judges-accept _ (q.0, ap (matches args.ignore_regex) (q.1 ∙ p.1) ∙ e)

  -- A process that is measured is none of those that the options exempt, and its name does not match
  -- --ignore.
  pub measure-Judges : (c : ProcInfo) → Judges Measured (measure os args c)
  unfolding measure
  measure-Judges c =
      Judges-also
        (Judges-also
          (Judges-also
            (Judges-also (Judges-also (check_pid-Judges c) check_root-Judges) read_stat-Judges)
            check_kernel_thread-Judges)
          read_oom_score-Judges)
        check_name-Judges

  warn_zombie-User : (c : ProcInfo) → User c → Returns User Any (warn_zombie os args c)
  unfolding warn_zombie
  warn_zombie-User c h =
      Returns-branch
        (λ _.
          Returns-bind (Returns-Any _)
            λ r _. Returns-bind (Returns-Any _) λ _ _. Returns-pure (record c { name = r.1 }) h)
        (λ _. Returns-pure c h)

  compare_with-Judges :
      (victim c : ProcInfo) → Measured c → Judges User (compare_with os args victim c)
  unfolding compare_with
  compare_with-Judges victim c h =
      Judges-branch (λ _. Judges-pure _ c h.0)
        λ _.
          Judges-branch (λ _. Judges-pure _ c h.0)
            λ _. Judges-bind (warn_zombie-User c h.0) λ c' h'. Judges-pure _ c' h'

  pub check_adj-Judges : (c : ProcInfo) → User c → Judges (IsTarget args) (check_adj os c)
  unfolding check_adj
  check_adj-Judges c h = Judges-bind (Returns-Any _) λ r _.
      Judges-branch (λ _. Judges-refuse _)
        λ e. Judges-accept _ (record {
          not_init = h.0.0;
          not_root = h.0.1;
          not_kernel_thread = h.1;
          not_exempt = ne_of_==ℤ r.1 (negsuc 999) (ground arith);
        })

  -- A process that `is_larger` prefers to the victim is not init or kthreadd, not a kernel thread,
  -- not exempt by its oom_score_adj, and not root's under --ignore-root-user.
  pub is_larger-IsTarget :
      (victim cur : ProcInfo) → Judges (IsTarget args) (is_larger os args victim cur)
  unfolding is_larger
  is_larger-IsTarget victim cur =
      Judges-also (Judges-also (measure-Judges cur) (compare_with-Judges victim)) check_adj-Judges
