-- ===== src/Select/Found.antt =====
-- The choice of a victim in kill.c: the fields of an eligible process.
use earlyoom.Prelude.{refl, Bool, true, false, arith, Bool-cases, inl, inr}
use earlyoom.Prelude.Int.{ℤ, pos, ◌≤ℤ◌, ◌+ℤ◌}
use earlyoom.Args.{Args}
use earlyoom.Machine.{Os, Machine, Action}
use earlyoom.Machine.Returns.{Returns-Any, Returns-weaken}
use earlyoom.Machine.Steady.{Gives, Returns-Gives}
use earlyoom.Select.{
  ProcInfo, Verdict, measure, read_oom_score, check_name, adjust, matches, vmrss_prefer,
  vmrss_avoid, oom_score_prefer, oom_score_avoid,
}
use earlyoom.Select.Target.{
  Judges, Judges-also, Judges-accept, Judges-refuse, Judges-branch, Judges-bind, IsTarget,
  measure-Judges, check_adj-Judges,
}
use earlyoom.Select.Order.{check_adj-SameRank}
use earlyoom.Select.Eligible.{eligible}

module _ {W : Type 0} (os : Os) (args : Args W) where
  eligible-Judges : (cur : ProcInfo) → Judges (IsTarget args) (eligible os args cur)
  unfolding eligible
  eligible-Judges cur =
      Judges-also (measure-Judges os args cur) λ c h. check_adj-Judges os args c h.0

  abbrev IsScored : ℤ → ProcInfo → Type 0
  IsScored low c = low ≤ℤ c.oom_score

  abbrev IsAny : ProcInfo → Type 0
  IsAny c = Unit

  anything : (x : Action Verdict) → Judges IsAny x
  anything x = record { returns = Returns-weaken (Returns-Any x) λ v _ _. tt }

  read_oom_score-Judges : (c : ProcInfo) → IsAny c → Judges (IsScored (pos 0)) (read_oom_score os c)
  unfolding read_oom_score
  read_oom_score-Judges c h =
      Judges-bind (Returns-Any _)
        λ res _. Judges-branch (λ _. Judges-refuse c) λ e. Judges-accept _ (ground arith)

  -- What --prefer and --avoid add changes the score by 300 at most.
  adjust-IsScored :
      (hit : Bool) (rss score low : ℤ) (c : ProcInfo)
      → low ≤ℤ c.oom_score
      → low ≤ℤ (c.oom_score +ℤ score)
      → IsScored low (adjust args hit rss score c)
  unfolding adjust
  adjust-IsScored false rss score low c h k = h
  adjust-IsScored true rss score low c h k = elim (Bool-cases args.sort_by_rss) [
    | inl e ↦ rw e h
    | inr e ↦ rw e k
  ]

  check_name-Judges :
      (c : ProcInfo) → IsScored (pos 0) c → Judges (IsScored oom_score_avoid) (check_name os args c)
  unfolding check_name
  check_name-Judges c h =
      Judges-branch (λ _. Judges-accept c (ground arith))
        λ _. Judges-bind (Returns-Any _) λ r _.
          let named = record c { name = r.1 } in
          let hit = matches args.prefer_regex r.1 in
          let preferred = adjust args hit vmrss_prefer oom_score_prefer named in
          let p =
            adjust-IsScored hit vmrss_prefer oom_score_prefer (pos 0) named h (ground arith) in
          let q =
            adjust-IsScored (matches args.avoid_regex r.1) vmrss_avoid oom_score_avoid
              oom_score_avoid preferred (ground arith) (ground arith) in
          Judges-branch (λ _. Judges-refuse _)
            λ _. Judges-branch (λ _. Judges-refuse _) λ _. Judges-accept _ q

  measure-IsScored : (cur : ProcInfo) → Judges (IsScored oom_score_avoid) (measure os args cur)
  unfolding measure
  measure-IsScored cur =
      Judges-also (Judges-also (anything _) read_oom_score-Judges) check_name-Judges

  eligible-IsScored : (cur : ProcInfo) → Judges (IsScored oom_score_avoid) (eligible os args cur)
  unfolding eligible
  eligible-IsScored cur =
      Judges-also (measure-IsScored cur) λ c h. record {
        returns = Returns-weaken (check_adj-SameRank os c) λ v s _. rw s.oom_score h;
      }

  pub measured-scored :
      (cur c : ProcInfo)
      → Machine
      → Gives (measure os args cur) (true, c)
      → oom_score_avoid ≤ℤ c.oom_score
  measured-scored cur c m g = Returns-Gives m (measure-IsScored cur).returns g refl

  -- The same of a process that is known to pass all checks.
  pub passes-IsTarget :
      (cur c : ProcInfo) → Machine → Gives (eligible os args cur) (true, c) → IsTarget args c
  passes-IsTarget cur c m g = Returns-Gives m (eligible-Judges cur).returns g refl

  pub passes-scored :
      (cur c : ProcInfo)
      → Machine
      → Gives (eligible os args cur) (true, c)
      → oom_score_avoid ≤ℤ c.oom_score
  passes-scored cur c m g = Returns-Gives m (eligible-IsScored cur).returns g refl
