-- ===== src/Select/Largest.antt =====
-- The scan over /proc in kill.c, in a world that stands still.
use mathlib.Core.Path.{subst}
use earlyoom.Prelude.{
  ◌≡◌, refl, sym, ap, ◌∙◌, Bool, true, false, not, arith, ◌⊎◌, inl, inr, List, [], ◌∷◌,
  if◌then◌else◌, ◌∈◌,
}
use earlyoom.Prelude.Text.{Bytes}
use earlyoom.Args.{Args}
use earlyoom.Machine.{Os, Machine, done}
use earlyoom.Machine.Runs.{Runs-bind, branch-cases, pure_value, Returns-done}
use earlyoom.Machine.Steady.{IsStill, Gives, Gives-done, Gives-unique}
use earlyoom.Select.{ProcInfo, isnumeric, fresh, measure, is_larger, consider, scan_names}
use earlyoom.Select.Order.{SameRank, debug-SameRank}
use earlyoom.Select.Ranking.{Ranking}
use earlyoom.Select.Eligible.{eligible, eligible-Measured, rank, larger-Accepted, is_larger-Larger}

module _ {W : Type 0} (os : Os) (args : Args W) where
  -- The directory of a process that passes all checks, with what they have filled in.
  pub record Candidate (name : Bytes) (c : ProcInfo) : Type 0 where
    pub numeric : isnumeric name ≡ true
    pub passes : Gives (eligible os args (fresh os args name)) (true, c)

  -- The process is a candidate, as it was or read further.
  pub record Chosen (names : List Bytes) (v : ProcInfo) : Type 0 where
    pub name : Bytes
    pub listed : name ∈ names
    pub candidate : ProcInfo
    pub is_candidate : Candidate name candidate
    pub same : SameRank candidate v

module _ {W : Type 0} (os : Os) (args : Args W) (r : Ranking os args) (still : IsStill os) where
  -- The processes that come to the comparison under this name are ranked.
  abbrev pub AllRanked : Bytes → Type 0
  AllRanked name =
      (c : ProcInfo) → Gives (measure os args (fresh os args name)) (true, c) → r.Ranked c

  Candidate-Ranked :
      (name : Bytes) (c : ProcInfo)
      → Machine
      → AllRanked name
      → Candidate os args name c
      → r.Ranked c
  Candidate-Ranked name c m all k =
      let p = eligible-Measured os args (fresh os args name) c m still k.passes in
      r.same_ranked p.measured c (rank os p.measured c m p.adj) (all p.measured p.first)

  abbrev pub Above : ProcInfo → ProcInfo → Type 0
  Above v c = r.below v c ≡ true

  -- One name: the victim stays, and is at least as large as the candidate, or the candidate is the
  -- new victim, and was larger.
  data Step (name : Bytes) (victim v : ProcInfo) : Type 0 where
    kept :
        v ≡ victim
        → ((c : ProcInfo) → Candidate os args name c → Above victim c)
        → Step name victim v
    replaced :
        (c : ProcInfo)
        → Candidate os args name c
        → r.below victim c ≡ false
        → SameRank c v
        → Step name victim v

  kept_not_larger :
      (name : Bytes) (victim c cur : ProcInfo) (m m' : Machine)
      → r.Ranked victim
      → AllRanked name
      → is_larger os args victim (fresh os args name) m ≡ (done (false, cur), m')
      → Candidate os args name c
      → Above victim c
  kept_not_larger name victim c cur m m' rv all h k =
      let a = larger-Accepted os args r victim rv (fresh os args name) c m still all k.passes in
      let e : a.verdict.0 ≡ false = ap (λ v. v.0) (Gives-done a.gives h) in
      let l = a.larger in ground arith

  judged-Step :
      (name : Bytes) (victim cur cur' v : ProcInfo) (larger : Bool) (m m' : Machine)
      → r.Ranked victim
      → AllRanked name
      → isnumeric name ≡ true
      → is_larger os args victim (fresh os args name) m ≡ (done (larger, cur), m')
      → SameRank cur cur'
      → (if larger then cur' else victim) ≡ v
      → Step name victim v
  judged-Step name victim cur cur' v true m m' rv all n h s e =
      let l = is_larger-Larger os args r victim rv (fresh os args name) cur m m' still all h in
      replaced cur (record { numeric = n; passes = l.passes }) l.above (rw (sym e) s)
  judged-Step name victim cur cur' v false m m' rv all n h s e =
      kept (sym e) λ c k. kept_not_larger name victim c cur m m' rv all h k

  consider-Step :
      (name : Bytes) (victim v : ProcInfo) (m m' : Machine)
      → r.Ranked victim
      → AllRanked name
      → consider os args name victim m ≡ (done v, m')
      → Step name victim v
  unfolding consider
  consider-Step name victim v m m' rv all h = elim (branch-cases (not (isnumeric name)) _ _ m _ h) [
    | inl (other, h1) ↦
        let (e, _) = pure_value victim v m m' h1 in
        kept (sym e) λ c k. let n = k.numeric in absurd (ground arith)
    | inr (number, h1) ↦
        let r1 = Runs-bind _ _ m m' v h1 in
        let r2 = Runs-bind _ _ r1.middle m' v r1.second in
        let (e, _) = pure_value _ v r2.middle m' r2.second in
        judged-Step name victim r1.value.1 r2.value v r1.value.0 m r1.middle rv all (ground arith)
          r1.first (Returns-done (debug-SameRank os r1.value.1) r2.first) e
  ]

  Step-grows : (name : Bytes) (victim v : ProcInfo) → Step name victim v → Above v victim
  Step-grows name victim v (kept e best) = rw e (r.below_refl victim)
  Step-grows name victim v (replaced c k above s) =
      sym (r.same_left c v victim s) ∙ r.below_total victim c above

  Step-best :
      (name : Bytes) (victim v c : ProcInfo)
      → Machine
      → Step name victim v
      → Candidate os args name c
      → Above v c
  Step-best name victim v c m (kept e best) k = rw e (best c k)
  Step-best name victim v c m (replaced c' k' above s) k =
      let same = ap (λ v. v.1) (Gives-unique m k'.passes k.passes) in
      rw (sym same) (sym (r.same_left c' v c' s) ∙ r.below_refl c')

  Step-ranked :
      (name : Bytes) (victim v : ProcInfo)
      → Machine
      → r.Ranked victim
      → AllRanked name
      → Step name victim v
      → r.Ranked v
  Step-ranked name victim v m rv all (kept e best) = subst r.Ranked (sym e) rv
  Step-ranked name victim v m rv all (replaced c k above s) =
      r.same_ranked c v s (Candidate-Ranked name c m all k)

  -- What the scan of the names has done to the victim.
  pub record Scanned (names : List Bytes) (victim v : ProcInfo) : Type 0 where
    pub grows : Above v victim
    pub ranked : r.Ranked v
    pub best : (name : Bytes) (c : ProcInfo) → name ∈ names → Candidate os args name c → Above v c
    pub origin : (v ≡ victim) ⊎ Chosen os args names v

  Chosen-later :
      (name : Bytes) (names : List Bytes) (v : ProcInfo)
      → Chosen os args names v
      → Chosen os args (name ∷ names) v
  Chosen-later name names v k = record {
    name = k.name;
    listed = inr k.listed;
    candidate = k.candidate;
    is_candidate = k.is_candidate;
    same = k.same;
  }

  Step-origin :
      (name : Bytes) (names : List Bytes) (victim v : ProcInfo)
      → Step name victim v
      → (v ≡ victim) ⊎ Chosen os args (name ∷ names) v
  Step-origin name names victim v (kept e best) = inl e
  Step-origin name names victim v (replaced c k above s) =
      inr (record { name = name; listed = inl refl; candidate = c; is_candidate = k; same = s })

  pub scan_names-Scanned :
      (names : List Bytes) (victim v : ProcInfo) (m m' : Machine)
      → r.Ranked victim
      → ((name : Bytes) → name ∈ names → AllRanked name)
      → scan_names os args names victim m ≡ (done v, m')
      → Scanned names victim v
  unfolding scan_names
  scan_names-Scanned [] victim v m m' rv all h =
      let (e, _) = pure_value victim v m m' h in
      record {
        grows = rw e (r.below_refl v);
        ranked = subst r.Ranked e rv;
        best = λ name c listed k. absurd listed;
        origin = inl (sym e);
      }
  scan_names-Scanned (name ∷ names) victim v m m' rv all h =
      let r1 = Runs-bind _ _ m m' v h in
      let r2 = Runs-bind _ _ r1.middle m' v r1.second in
      let w = r2.value in
      let here = all name (inl refl) in
      let step = consider-Step name victim w r1.middle r2.middle rv here r2.first in
      let rk = Step-ranked name victim w m rv here step in
      let rest = scan_names-Scanned names w v r2.middle m' rk (λ n l. all n (inr l)) r2.second in
      record {
        grows =
            r.below_trans v w victim rest.ranked rk rv rest.grows (Step-grows name victim w step);
        ranked = rest.ranked;
        best = λ name' c listed k. elim listed [
          | inl e ↦
              let k' = subst (λ n. Candidate os args n c) e k in
              r.below_trans v w c rest.ranked rk (Candidate-Ranked name c m here k') rest.grows
                (Step-best name victim w c m step k')
          | inr later ↦ rest.best name' c later k
        ];
        origin = elim rest.origin [
          | inl e ↦ rw e (Step-origin name names victim w step)
          | inr k ↦ inr (Chosen-later name names v k)
        ];
      }
