-- ===== src/Select/Best.antt =====
-- `find_largest_process` of kill.c in a world that stands still, without --sort-by-rss.
use earlyoom.Prelude.{◌≡◌, true, false, arith, ◌∈◌}
use earlyoom.Prelude.Int.{pos, ◌<ℤ◌, ◌≤ℤ◌}
use earlyoom.Prelude.Text.{Bytes}
use earlyoom.Args.{Args}
use earlyoom.Machine.{Os, Machine, done}
use earlyoom.Machine.Steady.{IsStill}
use earlyoom.Select.{
  ProcInfo, empty_procinfo, fresh, find_largest_process, not_larger_by_score, oom_score_avoid,
}
use earlyoom.Select.Order.{◌⊒◌, by_score_largest}
use earlyoom.Select.Ranking.{score_ranking}
use earlyoom.Select.Found.{passes-scored}
use earlyoom.Select.Largest.{Candidate, Chosen}
use earlyoom.Select.Selected.{
  names_of, Selected, find-Selected, Selected-largest, Selected-Chosen, Winner, Selected-Winner,
  Selected-found, ExemptsItself,
}

-- The initial victim is smaller than any process.
empty_smaller :
    (c : ProcInfo)
    → oom_score_avoid ≤ℤ c.oom_score
    → ¬ (not_larger_by_score empty_procinfo c ≡ true)
unfolding not_larger_by_score
empty_smaller c low h = ground arith

module _ {W : Type 0} (os : Os) (args : Args W) (by_score : args.sort_by_rss ≡ false)
    (still : IsStill os) where
  -- All processes are ranked.
  abbrev Found : ProcInfo → Type 0
  Found v = Selected os args (score_ranking os args by_score) still (λ name listed c g. tt) tt v

  find-Found :
      (v : ProcInfo) (m m' : Machine) → find_largest_process os args m ≡ (done v, m') → Found v
  find-Found v m m' h =
      find-Selected os args (score_ranking os args by_score) still (λ name listed c g. tt) tt v m m'
        h

  -- In a world that stands still and without --sort-by-rss, a victim that is found is at least as
  -- large as every listed process that passes all checks: its oom_score is higher, or is the same
  -- with an rss no smaller.
  pub find_largest_process-largest :
      (v : ProcInfo) (m m' : Machine) (name : Bytes) (c : ProcInfo)
      → find_largest_process os args m ≡ (done v, m')
      → pos 0 <ℤ v.pid
      → name ∈ names_of os
      → Candidate os args name c
      → v ⊒ c
  find_largest_process-largest v m m' name c h p listed k = by_score_largest v c (
      Selected-largest os args (score_ranking os args by_score) still (λ name listed c g. tt) tt v
        (find-Found v m m' h) name c p listed k)

  -- In a world that stands still and without --sort-by-rss, a victim that is found is one of the
  -- listed processes that pass all checks, with the score that the checks give it.
  pub find_largest_process-Chosen :
      (v : ProcInfo) (m m' : Machine)
      → find_largest_process os args m ≡ (done v, m')
      → pos 0 <ℤ v.pid
      → Chosen os args (names_of os) v
  find_largest_process-Chosen v m m' h p =
      Selected-Chosen os args (score_ranking os args by_score) still (λ name listed c g. tt) tt v
        (find-Found v m m' h) p

  -- In a world that stands still and without --sort-by-rss, where a listed process passes all checks,
  -- there is a process that passes all checks and is at least as large as that one, and it is given,
  -- or its pid is the program's own, and pid 0 is given.
  pub find_largest_process-finds :
      (v : ProcInfo) (m m' : Machine) (name : Bytes) (c : ProcInfo)
      → find_largest_process os args m ≡ (done v, m')
      → name ∈ names_of os
      → Candidate os args name c
      → (w : Winner os args v) × (w.winner ⊒ c)
  find_largest_process-finds v m m' name c h listed k =
      let low = passes-scored os args (fresh os args name) c m k.passes in
      let (w, best) =
        Selected-Winner os args (score_ranking os args by_score) still (λ name listed c g. tt) tt v
          (find-Found v m m' h) name c m listed k (empty_smaller c low) in
      (w, by_score_largest w.winner c best)

  -- Where the program itself does not pass the checks, a process is given.
  pub find_largest_process-found :
      (v : ProcInfo) (m m' : Machine) (name : Bytes) (c : ProcInfo)
      → find_largest_process os args m ≡ (done v, m')
      → name ∈ names_of os
      → Candidate os args name c
      → ExemptsItself os args
      → pos 0 <ℤ v.pid
  find_largest_process-found v m m' name c h listed k exempt =
      let low = passes-scored os args (fresh os args name) c m k.passes in
      Selected-found os args (score_ranking os args by_score) still (λ name listed c g. tt) tt v
        (find-Found v m m' h) name c m listed k (empty_smaller c low) exempt
