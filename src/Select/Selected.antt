-- ===== src/Select/Selected.antt =====
-- What `find_largest_process` has done where it returns, in a world that stands still and for any
-- ranking of the processes.
use mathlib.Core.Path.{subst}
use earlyoom.Prelude.{
  ◌≢◌, ◌≡◌, refl, sym, ap, ◌∙◌, Bool, true, false, arith, ◌⊎◌, inl, inr, List, [], if◌then◌else◌,
  ◌∈◌,
}
use earlyoom.Prelude.Int.{ℤ, pos, ◌<ℤ◌, leb_ℤ, ◌==ℤ◌}
use earlyoom.Prelude.Text.{Bytes}
use earlyoom.Args.{Args}
use earlyoom.Machine.{Os, Machine, done, read_dir, getpid, failed, branch, pure, Reply}
use earlyoom.Machine.Runs.{Runs-bind, branch-cases, pure_value, Returns-done, fatal_ends}
use earlyoom.Machine.Steady.{IsStill, Gives-done, Gives-call}
use earlyoom.Select.{
  ProcInfo, empty_procinfo, zero_procinfo, fresh, find_largest_process, fill_informative_fields,
}
use earlyoom.Select.Order.{SameRank, SameRank-trans, fill-SameRank}
use earlyoom.Select.Ranking.{Ranking}
use earlyoom.Select.Found.{passes-IsTarget}
use earlyoom.Select.Largest.{Candidate, Chosen, AllRanked, Scanned, scan_names-Scanned}

-- The names of the directory.
abbrev pub names_of : Os → List Bytes
names_of os = (os [] read_dir).names

-- A process that passes all checks is given, or pid 0 is, where that process is the program itself.
pub record Winner {W : Type 0} (os : Os) (args : Args W) (v : ProcInfo) : Type 0 where
  pub winner : ProcInfo
  pub chosen : Chosen os args (names_of os) winner
  pub positive : pos 0 <ℤ winner.pid
  pub result : SameRank winner v ⊎ ((v.pid ≡ pos 0) × (winner.pid ≡ (os [] getpid).ret))

-- The program itself does not pass the checks.
abbrev pub ExemptsItself : {W : Type 0} → Os → Args W → Type 0
ExemptsItself os args =
    (name : Bytes) (c : ProcInfo)
    → name ∈ names_of os
    → Candidate os args name c
    → c.pid ≢ (os [] getpid).ret

filled-SameRank :
    (os : Os) (chosen v : ProcInfo) (m m' : Machine)
    → branch (leb_ℤ (pos 0) chosen.pid) (fill_informative_fields os chosen) (pure chosen) m
      ≡ (done v, m')
    → SameRank chosen v
filled-SameRank os chosen v m m' h = elim (branch-cases (leb_ℤ (pos 0) chosen.pid) _ _ m _ h) [
  | inl (p, h1) ↦ Returns-done (fill-SameRank os chosen) h1
  | inr (p, h1) ↦
      let (e, _) = pure_value chosen v m m' h1 in
      record {
        pid = ap (λ c. c.pid) (sym e);
        oom_score = ap (λ c. c.oom_score) (sym e);
        vm_rss = ap (λ c. c.vm_rss) (sym e);
      }
]

chosen-result :
    (self : ℤ) (victim v : ProcInfo) (b : Bool)
    → (victim.pid ==ℤ self) ≡ b
    → SameRank (if b then zero_procinfo else victim) v
    → SameRank victim v ⊎ ((v.pid ≡ pos 0) × (victim.pid ≡ self))
chosen-result self victim v true e s = inr (s.pid, ground arith)
chosen-result self victim v false e s = inl s

module _ {W : Type 0} (os : Os) (args : Args W) (r : Ranking os args) (still : IsStill os)
    (all : (name : Bytes) → name ∈ names_of os → AllRanked os args r still name)
    (empty : r.Ranked empty_procinfo) where
  -- The result is the victim of the scan, or pid 0 where that is the program itself.
  pub record Selected (v : ProcInfo) : Type 0 where
    pub victim : ProcInfo
    pub scanned : Scanned os args r still (names_of os) empty_procinfo victim
    pub result : SameRank victim v ⊎ ((v.pid ≡ pos 0) × (victim.pid ≡ (os [] getpid).ret))

  pub find-Selected :
      (v : ProcInfo) (m m' : Machine) → find_largest_process os args m ≡ (done v, m') → Selected v
  unfolding find_largest_process
  find-Selected v m m' h =
      let r1 = Runs-bind _ _ m m' v h in
      let dir = r1.value in
      let same : (os [] read_dir) ≡ dir = Gives-done (Gives-call os still read_dir) r1.first in
      elim (branch-cases (failed dir) _ _ r1.middle _ r1.second) [
        | inl (bad, h2) ↦ absurd (fatal_ends os 5 v r1.middle m' h2)
        | inr (ok, h2) ↦
            let r2 = Runs-bind _ _ r1.middle m' v h2 in
            let r3 = Runs-bind _ _ r2.middle m' v r2.second in
            let r4 = Runs-bind _ _ r3.middle m' v r3.second in
            let r5 = Runs-bind _ _ r4.middle m' v r4.second in
            let r6 = Runs-bind _ _ r5.middle m' v r5.second in
            let listed =
              subst
                (λ (d : Reply). (name : Bytes) → name ∈ d.names → AllRanked os args r still name)
                same all in
            record {
              victim = r2.value;
              scanned =
                  subst (λ (d : Reply). Scanned os args r still d.names empty_procinfo r2.value)
                    (sym same)
                    (scan_names-Scanned os args r still dir.names empty_procinfo r2.value r1.middle
                      r2.middle empty listed r2.first);
              result =
                  subst
                    (λ (self : Reply).
                      SameRank r2.value v ⊎ ((v.pid ≡ pos 0) × (r2.value.pid ≡ self.ret)))
                    (sym (Gives-done (Gives-call os still getpid) r5.first))
                    (chosen-result r5.value.ret r2.value v _ refl
                      (filled-SameRank os _ v r6.middle m' r6.second));
            }
      ]

  module _ (v : ProcInfo) (s : Selected v) where
    pub Selected-largest :
        (name : Bytes) (c : ProcInfo)
        → pos 0 <ℤ v.pid
        → name ∈ names_of os
        → Candidate os args name c
        → r.below v c ≡ true
    Selected-largest name c p listed k =
        let best = s.scanned.best name c listed k in
        elim s.result [
          | inl same ↦ sym (r.same_left s.victim v c same) ∙ best
          | inr (none, _) ↦ absurd (ground arith)
        ]

    pub Selected-Chosen : pos 0 <ℤ v.pid → Chosen os args (names_of os) v
    Selected-Chosen p = elim s.result [
      | inr (none, _) ↦ absurd (ground arith)
      | inl same ↦ elim s.scanned.origin [
        | inl e ↦ let no = same.pid ∙ ap (λ c. c.pid) e in absurd (ground arith)
        | inr k ↦ record {
          name = k.name;
          listed = k.listed;
          candidate = k.candidate;
          is_candidate = k.is_candidate;
          same = SameRank-trans k.same same;
        }
      ]
    ]

    Chosen-positive : (w : ProcInfo) → Machine → Chosen os args (names_of os) w → pos 0 <ℤ w.pid
    Chosen-positive w m k =
        let t =
          passes-IsTarget os args (fresh os args k.name) k.candidate m k.is_candidate.passes in
        let p = t.not_init in let e = k.same.pid in ground arith

    -- An eligible process that is larger than the initial victim, and what follows.
    module _ (name : Bytes) (c : ProcInfo) (m : Machine) (listed : name ∈ names_of os)
        (k : Candidate os args name c) (above : ¬ (r.below empty_procinfo c ≡ true)) where
      scan-Chosen : Chosen os args (names_of os) s.victim
      scan-Chosen = elim s.scanned.origin [
        | inr chosen ↦ chosen
        | inl e ↦
            absurd (above (subst (λ w. r.below w c ≡ true) e (s.scanned.best name c listed k)))
      ]

      pub Selected-Winner : (w : Winner os args v) × (r.below w.winner c ≡ true)
      Selected-Winner = (
        record {
          winner = s.victim;
          chosen = scan-Chosen;
          positive = Chosen-positive s.victim m scan-Chosen;
          result = s.result;
        },
        s.scanned.best name c listed k,
      )

      pub Selected-found : ExemptsItself os args → pos 0 <ℤ v.pid
      Selected-found other = elim s.result [
        | inr (_, own) ↦
            let w = scan-Chosen in
            absurd (other w.name w.candidate w.listed w.is_candidate (sym w.same.pid ∙ own))
        | inl same ↦
            let p = Chosen-positive s.victim m scan-Chosen in let e = same.pid in ground arith
      ]
