-- ===== src/Select/Ranking.antt =====
-- What the choice of a victim needs of its order, and the two orders of kill.c: by oom_score, and,
-- with --sort-by-rss, by rss. The second one is an order only among processes that have memory of
-- their own: one with an rss of 0 (a zombie main thread), or below 0 (by --avoid), is compared by
-- oom_score instead.
use earlyoom.Prelude.{
  ◌≡◌, refl, sym, ◌∙◌, Bool, true, false, not, ◌&&◌, ◌⊎◌, inl, inr, if◌then◌else◌, arith,
  Bool-cases,
}
use earlyoom.Prelude.Int.{pos, ◌<ℤ◌, ◌≤ℤ◌, ltb_ℤ, ◌==ℤ◌}
use earlyoom.Args.{Args}
use earlyoom.Machine.{Os, branch}
use earlyoom.Machine.Steady.{Gives, Gives-bind, Gives-pure}
use earlyoom.Select.{
  ProcInfo, field_not_set, oom_score_avoid, not_larger_by_score, not_larger_by_rss, compare_with,
  warn_zombie,
}
use earlyoom.Select.Order.{
  SameRank, larger_trans, larger_total, larger_refl, SameRank-larger, SameRank-smaller,
}

-- `below a b`: `b` is not larger than `a`. The laws hold among the processes that are ranked.
pub record Ranking {W : Type 0} (os : Os) (args : Args W) : Type 1 where
  pub below : ProcInfo → ProcInfo → Bool
  pub Ranked : ProcInfo → Type 0
  pub compares :
      (victim c : ProcInfo)
      → Ranked victim
      → Ranked c
      → Gives (compare_with os args victim c) (not (below victim c), c)
  pub below_refl : (a : ProcInfo) → below a a ≡ true
  pub below_trans :
      (a b c : ProcInfo)
      → Ranked a
      → Ranked b
      → Ranked c
      → below a b ≡ true
      → below b c ≡ true
      → below a c ≡ true
  pub below_total : (a b : ProcInfo) → below a b ≡ false → below b a ≡ true
  pub same_ranked : (a b : ProcInfo) → SameRank a b → Ranked a → Ranked b
  pub same_left : (a b c : ProcInfo) → SameRank a b → below a c ≡ below b c
  pub same_right : (a b c : ProcInfo) → SameRank b c → below a b ≡ below a c

-- The test of `is_larger` under --sort-by-rss, both cases.
unfoldable pub below_rss : ProcInfo → ProcInfo → Bool
below_rss victim cur =
    if ltb_ℤ (pos 0) cur.vm_rss && ltb_ℤ (pos 0) victim.vm_rss
    then not_larger_by_rss victim cur
    else not_larger_by_score victim cur

pub record IsResident (c : ProcInfo) : Type 0 where
  pub has_memory : pos 0 <ℤ c.vm_rss
  pub scored : oom_score_avoid ≤ℤ c.oom_score

pub record IsEmpty (c : ProcInfo) : Type 0 where
  pub no_memory : c.vm_rss ≡ field_not_set
  pub no_score : c.oom_score ≡ field_not_set

-- A process with memory of its own, or the initial victim.
abbrev pub IsComparable : ProcInfo → Type 0
IsComparable c = IsResident c ⊎ IsEmpty c

pub below_rss_refl : (a : ProcInfo) → below_rss a a ≡ true
unfolding below_rss not_larger_by_rss not_larger_by_score
below_rss_refl a = ground arith

pub below_rss_total : (a b : ProcInfo) → below_rss a b ≡ false → below_rss b a ≡ true
unfolding below_rss not_larger_by_rss not_larger_by_score
below_rss_total a b h = ground arith

-- Among processes with memory the order is that by rss.
resident_by_rss :
    (a b : ProcInfo) → pos 0 <ℤ a.vm_rss → pos 0 <ℤ b.vm_rss → below_rss a b ≡ not_larger_by_rss a b
unfolding below_rss
resident_by_rss a b ha hb = ground arith

empty_by_score : (a b : ProcInfo) → IsEmpty a ⊎ IsEmpty b → below_rss a b ≡ not_larger_by_score a b
unfolding below_rss
empty_by_score a b (inl e) = let h = e.no_memory in ground arith
empty_by_score a b (inr e) = let h = e.no_memory in ground arith

by_rss_trans :
    (a b c : ProcInfo)
    → not_larger_by_rss a b ≡ true
    → not_larger_by_rss b c ≡ true
    → not_larger_by_rss a c ≡ true
unfolding not_larger_by_rss
by_rss_trans a b c h k = ground arith

-- The initial victim is smaller than every process with memory.
empty_below : (a b : ProcInfo) → IsEmpty a → IsResident b → not_larger_by_score a b ≡ false
unfolding not_larger_by_score
empty_below a b e r = let h = e.no_score in let k = r.scored in ground arith

above_empty : (a b : ProcInfo) → IsResident a → IsEmpty b → not_larger_by_score a b ≡ true
unfolding not_larger_by_score
above_empty a b r e = let h = e.no_score in let k = r.scored in ground arith

never_above_empty : (a b : ProcInfo) → IsEmpty a → IsResident b → below_rss a b ≡ true → ⊥
never_above_empty a b e r h = cc (empty_by_score a b (inl e), empty_below a b e r)

pub below_rss_trans :
    (a b c : ProcInfo)
    → IsComparable a
    → IsComparable b
    → IsComparable c
    → below_rss a b ≡ true
    → below_rss b c ≡ true
    → below_rss a c ≡ true
below_rss_trans a b c (inl ra) (inl rb) (inl rc) h k =
    let ma = ra.has_memory in
    let mb = rb.has_memory in
    let mc = rc.has_memory in
    resident_by_rss a c ma mc
    ∙ by_rss_trans a b c (sym (resident_by_rss a b ma mb) ∙ h) (sym (resident_by_rss b c mb mc) ∙ k)
below_rss_trans a b c (inl ra) rb (inr ec) h k = empty_by_score a c (inr ec) ∙ above_empty a c ra ec
below_rss_trans a b c (inl ra) (inr eb) (inl rc) h k = absurd (never_above_empty b c eb rc k)
below_rss_trans a b c (inr ea) (inl rb) rc h k = absurd (never_above_empty a b ea rb h)
below_rss_trans a b c (inr ea) (inr eb) (inl rc) h k = absurd (never_above_empty b c eb rc k)
below_rss_trans a b c (inr ea) (inr eb) (inr ec) h k =
    empty_by_score a c (inl ea)
    ∙ larger_trans a b c (sym (empty_by_score a b (inl ea)) ∙ h)
        (sym (empty_by_score b c (inl eb)) ∙ k)

pub compare_by_score :
    {W : Type 0} (os : Os) (args : Args W) (victim c : ProcInfo)
    → args.sort_by_rss ≡ false
    → Gives (compare_with os args victim c) (not (not_larger_by_score victim c), c)
unfolding compare_with branch
compare_by_score os args victim c e = rw e (Gives-pure _)

-- Without --sort-by-rss: all processes are ranked.
abbrev pub score_ranking :
    {W : Type 0} (os : Os) (args : Args W) → args.sort_by_rss ≡ false → Ranking os args
score_ranking os args e = record {
  below = not_larger_by_score;
  Ranked = λ c. Unit;
  compares = λ victim c rv rc. compare_by_score os args victim c e;
  below_refl = larger_refl;
  below_trans = λ a b c ra rb rc. larger_trans a b c;
  below_total = larger_total;
  same_ranked = λ a b s r. tt;
  same_left = SameRank-smaller;
  same_right = SameRank-larger;
}

not_zero : (c : ProcInfo) → IsComparable c → (c.vm_rss ==ℤ pos 0) ≡ false
not_zero c (inl r) = let h = r.has_memory in ground arith
not_zero c (inr e) = let h = e.no_memory in ground arith

pub compare_by_rss :
    {W : Type 0} (os : Os) (args : Args W) (victim c : ProcInfo)
    → args.sort_by_rss ≡ true
    → IsComparable c
    → Gives (compare_with os args victim c) (not (below_rss victim c), c)
unfolding compare_with branch below_rss warn_zombie
compare_by_rss os args victim c e r =
    elim (Bool-cases (ltb_ℤ (pos 0) c.vm_rss && ltb_ℤ (pos 0) victim.vm_rss)) [
      | inl both ↦ rw e (rw both (Gives-pure _))
      | inr not_both ↦
          rw e (rw not_both (Gives-bind _ c _ (rw (not_zero c r) (Gives-pure c)) (Gives-pure _)))
    ]

pub same-IsComparable : (a b : ProcInfo) → SameRank a b → IsComparable a → IsComparable b
same-IsComparable a b s (inl r) =
    inl (record { has_memory = rw s.vm_rss r.has_memory; scored = rw s.oom_score r.scored })
same-IsComparable a b s (inr e) =
    inr (record { no_memory = s.vm_rss ∙ e.no_memory; no_score = s.oom_score ∙ e.no_score })

pub below_rss_left : (a b c : ProcInfo) → SameRank a b → below_rss a c ≡ below_rss b c
unfolding below_rss not_larger_by_rss not_larger_by_score
below_rss_left a b c s = rw (s.oom_score, s.vm_rss) refl

pub below_rss_right : (a b c : ProcInfo) → SameRank b c → below_rss a b ≡ below_rss a c
unfolding below_rss not_larger_by_rss not_larger_by_score
below_rss_right a b c s = rw (s.oom_score, s.vm_rss) refl

-- With --sort-by-rss: the processes with memory are ranked, and the initial victim below them.
abbrev pub rss_ranking :
    {W : Type 0} (os : Os) (args : Args W) → args.sort_by_rss ≡ true → Ranking os args
rss_ranking os args e = record {
  below = below_rss;
  Ranked = IsComparable;
  compares = λ victim c rv rc. compare_by_rss os args victim c e rc;
  below_refl = below_rss_refl;
  below_trans = below_rss_trans;
  below_total = below_rss_total;
  same_ranked = same-IsComparable;
  same_left = below_rss_left;
  same_right = below_rss_right;
}

pub empty_not_above : (a b : ProcInfo) → IsEmpty a → IsResident b → ¬ (below_rss a b ≡ true)
empty_not_above a b e r h = never_above_empty a b e r h

-- The order by rss as numbers.
pub by_rss_most :
    (v c : ProcInfo)
    → IsResident v
    → IsResident c
    → below_rss v c ≡ true
    → (c.vm_rss <ℤ v.vm_rss) ⊎ ((c.vm_rss ≡ v.vm_rss) × (c.oom_score ≤ℤ v.oom_score))
unfolding below_rss not_larger_by_rss
by_rss_most v c rv rc h = let a = rv.has_memory in let b = rc.has_memory in ground arith
