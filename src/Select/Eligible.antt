-- ===== src/Select/Eligible.antt =====
-- `is_larger` of kill.c in a world that stands still. A process is eligible if it passes all checks
-- but the comparison.
use mathlib.Core.Path.{subst}
use earlyoom.Prelude.{◌≡◌, refl, sym, ap, ◌∙◌, Bool, true, false, not, arith, ◌⊎◌, inl, inr}
use earlyoom.Args.{Args}
use earlyoom.Machine.{Os, Machine, Action, done, branch}
use earlyoom.Machine.Steady.{
  IsStill, Gives, Gives-bind, Returns-Gives, Gives-unique, Gives-done, Gives-pure,
}
use earlyoom.Select.{ProcInfo, Verdict, ◌▸◌, compare_with, check_adj, measure, is_larger}
use earlyoom.Select.Order.{SameRank, check_adj-SameRank}
use earlyoom.Select.Ranking.{Ranking}
use earlyoom.Select.Steady.{measure-Steady, check_adj-Steady}

module _ {x : Action Verdict} (f : ProcInfo → Action Verdict) (c : ProcInfo) where
  Gives-refused : Gives x (false, c) → Gives (x ▸ f) (false, c)
  unfolding ◌▸◌ branch
  Gives-refused gx = Gives-bind _ _ _ gx (Gives-pure _)

  Gives-accepted : (r : Verdict) → Gives x (true, c) → Gives (f c) r → Gives (x ▸ f) r
  unfolding ◌▸◌ branch
  Gives-accepted r gx gf = Gives-bind _ _ r gx gf

not_both :
    {x : Action Verdict} {c0 c : ProcInfo} (m m' : Machine)
    → Gives x (false, c0)
    → x m ≡ (done (true, c), m')
    → ⊥
not_both m m' g h = let no : false ≡ true = ap (λ v. v.0) (Gives-done g h) in absurd (ground arith)

pub rank : (os : Os) (c0 c : ProcInfo) → Machine → Gives (check_adj os c0) (true, c) → SameRank c0 c
rank os c0 c m g = Returns-Gives m (check_adj-SameRank os c0) g

module _ {W : Type 0} (os : Os) (args : Args W) where
  unfoldable pub eligible : ProcInfo → Action Verdict
  eligible cur = measure os args cur ▸ check_adj os

  -- The two halves of an eligible process's way: the first checks, and that of oom_score_adj.
  pub record Measured (cur c : ProcInfo) : Type 0 where
    pub measured : ProcInfo
    pub first : Gives (measure os args cur) (true, measured)
    pub adj : Gives (check_adj os measured) (true, c)

  Measured-parts :
      (cur c : ProcInfo) (m : Machine) (v : Verdict)
      → IsStill os
      → Gives (measure os args cur) v
      → Gives (eligible cur) (true, c)
      → Measured cur c
  unfolding eligible
  Measured-parts cur c m (false, c0) still gm ge =
      let e = Gives-unique m ge (Gives-refused _ c0 gm) in
      let no : true ≡ false = ap (λ v. v.0) e in absurd (ground arith)
  Measured-parts cur c m (true, c0) still gm ge =
      let adj = check_adj-Steady os still c0 in
      let e = Gives-unique m (Gives-accepted _ c0 _ gm adj.gives) ge in
      record { measured = c0; first = gm; adj = rw (sym e) adj.gives }

  pub eligible-Measured :
      (cur c : ProcInfo) (m : Machine)
      → IsStill os
      → Gives (eligible cur) (true, c)
      → Measured cur c
  eligible-Measured cur c m still ge =
      let s = measure-Steady os args still cur in Measured-parts cur c m s.value still s.gives ge

module _ {W : Type 0} (os : Os) (args : Args W) (r : Ranking os args) (victim : ProcInfo)
    (ranked : r.Ranked victim) where
  -- What `is_larger` says of a process that all the checks accept.
  pub record Accepted (cur c : ProcInfo) : Type 0 where
    pub verdict : Verdict
    pub gives : Gives (is_larger os args victim cur) verdict
    pub larger : verdict.0 ≡ not (r.below victim c)
    pub filled : (r.below victim c ≡ true) ⊎ (verdict.1 ≡ c)

  compared :
      (c : ProcInfo) (b : Bool)
      → r.Ranked c
      → r.below victim c ≡ b
      → Gives (compare_with os args victim c) (not b, c)
  compared c b rc e =
      subst (λ b. Gives {A = Verdict} (compare_with os args victim c) (not b, c)) e
        (r.compares victim c ranked rc)

  accepted :
      (cur c0 c : ProcInfo) (b : Bool)
      → Gives (measure os args cur) (true, c0)
      → r.Ranked c0
      → Gives (check_adj os c0) (true, c)
      → SameRank c0 c
      → r.below victim c0 ≡ b
      → Accepted cur c
  unfolding is_larger
  accepted cur c0 c true gm rc ga s e =
      let k = sym (r.same_right victim c0 c s) ∙ e in
      record {
        verdict = (false, c0);
        gives = Gives-refused _ c0 (Gives-accepted _ c0 _ gm (compared c0 true rc e));
        larger = rw k refl;
        filled = inl k;
      }
  accepted cur c0 c false gm rc ga s e =
      let k = sym (r.same_right victim c0 c s) ∙ e in
      record {
        verdict = (true, c);
        gives = Gives-accepted _ c0 _ (Gives-accepted _ c0 _ gm (compared c0 false rc e)) ga;
        larger = rw k refl;
        filled = inr refl;
      }

  pub larger-Accepted :
      (cur c : ProcInfo)
      → Machine
      → IsStill os
      → ((c0 : ProcInfo) → Gives (measure os args cur) (true, c0) → r.Ranked c0)
      → Gives (eligible os args cur) (true, c)
      → Accepted cur c
  larger-Accepted cur c m still all ge =
      let p = eligible-Measured os args cur c m still ge in
      accepted cur p.measured c _ p.first (all p.measured p.first) p.adj
        (rank os p.measured c m p.adj) refl

  -- Conversely, a process that is larger than the victim is eligible.
  pub record Larger (cur c : ProcInfo) : Type 0 where
    pub passes : Gives (eligible os args cur) (true, c)
    pub above : r.below victim c ≡ false

  compared-Larger :
      (cur c0 c : ProcInfo) (m m' : Machine) (b : Bool)
      → IsStill os
      → Gives (measure os args cur) (true, c0)
      → r.Ranked c0
      → r.below victim c0 ≡ b
      → is_larger os args victim cur m ≡ (done (true, c), m')
      → Larger cur c
  unfolding is_larger eligible
  compared-Larger cur c0 c m m' true still gm rc e h =
      absurd
        (not_both m m' (Gives-refused _ c0 (Gives-accepted _ c0 _ gm (compared c0 true rc e))) h)
  compared-Larger cur c0 c m m' false still gm rc e h =
      let g = compared c0 false rc e in
      let adj = check_adj-Steady os still c0 in
      let same = Gives-done (Gives-accepted _ c0 _ (Gives-accepted _ c0 _ gm g) adj.gives) h in
      let ga : Gives (check_adj os c0) (true, c) = rw (sym same) adj.gives in
      record {
        passes = Gives-accepted _ c0 _ gm ga;
        above = sym (r.same_right victim c0 c (rank os c0 c m ga)) ∙ e;
      }

  measured-Larger :
      (cur c : ProcInfo) (m m' : Machine) (v : Verdict)
      → IsStill os
      → ((c0 : ProcInfo) → Gives (measure os args cur) (true, c0) → r.Ranked c0)
      → Gives (measure os args cur) v
      → is_larger os args victim cur m ≡ (done (true, c), m')
      → Larger cur c
  unfolding is_larger
  measured-Larger cur c m m' (false, c0) still all gm h =
      absurd (not_both m m' (Gives-refused _ c0 (Gives-refused _ c0 gm)) h)
  measured-Larger cur c m m' (true, c0) still all gm h =
      compared-Larger cur c0 c m m' _ still gm (all c0 gm) refl h

  pub is_larger-Larger :
      (cur c : ProcInfo) (m m' : Machine)
      → IsStill os
      → ((c0 : ProcInfo) → Gives (measure os args cur) (true, c0) → r.Ranked c0)
      → is_larger os args victim cur m ≡ (done (true, c), m')
      → Larger cur c
  is_larger-Larger cur c m m' still all h =
      let s = measure-Steady os args still cur in
      measured-Larger cur c m m' s.value still all s.gives h
