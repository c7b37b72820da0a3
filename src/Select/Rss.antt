-- ===== src/Select/Rss.antt =====
-- `find_largest_process` of kill.c in a world that stands still, with --sort-by-rss.
use earlyoom.Prelude.{◌≡◌, refl, true, ◌⊎◌, inl, inr, ◌∈◌}
use earlyoom.Prelude.Int.{pos, ◌<ℤ◌, ◌≤ℤ◌}
use earlyoom.Prelude.Text.{Bytes}
use earlyoom.Args.{Args}
use earlyoom.Machine.{Os, Machine, done}
use earlyoom.Machine.Steady.{IsStill, Gives}
use earlyoom.Select.{ProcInfo, empty_procinfo, fresh, find_largest_process, measure}
use earlyoom.Select.Order.{SameRank}
use earlyoom.Select.Ranking.{IsResident, IsEmpty, by_rss_most, empty_not_above, rss_ranking}
use earlyoom.Select.Found.{measured-scored}
use earlyoom.Select.Eligible.{eligible-Measured, rank}
use earlyoom.Select.Largest.{Candidate, Chosen, AllRanked}
use earlyoom.Select.Selected.{names_of, Selected, find-Selected, Winner, Selected-Winner}

module _ {W : Type 0} (os : Os) (args : Args W) where
  -- Every listed process that comes to the comparison has memory of its own.
  abbrev pub AllResident : Type 0
  AllResident =
      (name : Bytes)
      → name ∈ names_of os
      → (c : ProcInfo) → Gives (measure os args (fresh os args name)) (true, c)
      → pos 0 <ℤ c.vm_rss

  -- What is found, beside a candidate: a process that passes all checks, with more memory, or with as
  -- much and no smaller score; it is given, or it is the program itself, and pid 0 is given.
  pub record IsMost (v c : ProcInfo) : Type 0 where
    pub found : Winner os args v
    pub most :
        (c.vm_rss <ℤ found.winner.vm_rss)
        ⊎ ((c.vm_rss ≡ found.winner.vm_rss) × (c.oom_score ≤ℤ found.winner.oom_score))

module _ {W : Type 0} (os : Os) (args : Args W) (by_rss : args.sort_by_rss ≡ true)
    (still : IsStill os) (resident : AllResident os args) where
  listed-IsResident :
      (name : Bytes)
      → name ∈ names_of os
      → Machine
      → (c : ProcInfo) → Gives (measure os args (fresh os args name)) (true, c)
      → IsResident c
  listed-IsResident name listed m c g = record {
    has_memory = resident name listed c g;
    scored = measured-scored os args (fresh os args name) c m g;
  }

  same-IsResident : (a b : ProcInfo) → SameRank a b → IsResident a → IsResident b
  same-IsResident a b s r = record {
    has_memory = rw s.vm_rss r.has_memory;
    scored = rw s.oom_score r.scored;
  }

  Candidate-IsResident :
      (name : Bytes)
      → name ∈ names_of os
      → Machine
      → (c : ProcInfo) → Candidate os args name c
      → IsResident c
  Candidate-IsResident name listed m c k =
      let p = eligible-Measured os args (fresh os args name) c m still k.passes in
      same-IsResident p.measured c (rank os p.measured c m p.adj)
        (listed-IsResident name listed m p.measured p.first)

  Chosen-IsResident : (v : ProcInfo) → Machine → Chosen os args (names_of os) v → IsResident v
  Chosen-IsResident v m k =
      same-IsResident k.candidate v k.same
        (Candidate-IsResident k.name k.listed m k.candidate k.is_candidate)

  empty_procinfo-IsEmpty : IsEmpty empty_procinfo
  empty_procinfo-IsEmpty = record { no_memory = refl; no_score = refl }

  listed_ranked :
      Machine
      → (name : Bytes) → name ∈ names_of os
      → AllRanked os args (rss_ranking os args by_rss) still name
  listed_ranked m name listed c g = inl (listed-IsResident name listed m c g)

  module _ (v : ProcInfo) (m m' : Machine) (h : find_largest_process os args m ≡ (done v, m')) where
    abbrev Found : Type 0
    Found =
        Selected os args (rss_ranking os args by_rss) still (listed_ranked m)
          (inr empty_procinfo-IsEmpty) v

    found : Found
    found =
        find-Selected os args (rss_ranking os args by_rss) still (listed_ranked m)
          (inr empty_procinfo-IsEmpty) v m m' h

  -- In a world that stands still and with --sort-by-rss, where every listed process that comes to the
  -- comparison has an rss above zero and one of them passes all checks, there is a process that
  -- passes all checks and has no smaller rss than that one, nor the same rss and a smaller score; it
  -- is given, or its pid is the program's own, and pid 0 is given.
  pub find_largest_process-IsMost :
      (v : ProcInfo) (m m' : Machine) (name : Bytes) (c : ProcInfo)
      → find_largest_process os args m ≡ (done v, m')
      → name ∈ names_of os
      → Candidate os args name c
      → IsMost os args v c
  find_largest_process-IsMost v m m' name c h listed k =
      let rc = Candidate-IsResident name listed m c k in
      let (w, best) =
        Selected-Winner os args (rss_ranking os args by_rss) still (listed_ranked m)
          (inr empty_procinfo-IsEmpty) v (found v m m' h) name c m listed k
          (empty_not_above empty_procinfo c empty_procinfo-IsEmpty rc) in
      record {
        found = w;
        most = by_rss_most w.winner c (Chosen-IsResident w.winner m w.chosen) rc best;
      }
