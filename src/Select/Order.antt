-- ===== src/Select/Order.antt =====
-- The order of `is_larger` in kill.c, by oom_score, and by rss where the scores are equal.
use earlyoom.Prelude.{◌≡◌, refl, ◌∙◌, ◌⊎◌, true, false, arith}
use earlyoom.Prelude.Int.{◌<ℤ◌, ◌≤ℤ◌}
use earlyoom.Machine.{Os}
use earlyoom.Machine.Returns.{Returns, Any, Returns-pure, Returns-branch, Returns-bind, Returns-Any}
use earlyoom.Select.{
  ProcInfo, not_larger_by_score, check_adj, fill_informative_fields, debug_print_procinfo,
}

-- One process at two times: the number, score and rss are the same.
pub record SameRank (a b : ProcInfo) : Type 0 where
  pub pid : b.pid ≡ a.pid
  pub oom_score : b.oom_score ≡ a.oom_score
  pub vm_rss : b.vm_rss ≡ a.vm_rss

pub SameRank-refl : (a : ProcInfo) → SameRank a a
SameRank-refl a = record { pid = refl; oom_score = refl; vm_rss = refl }

pub SameRank-trans : {a b c : ProcInfo} → SameRank a b → SameRank b c → SameRank a c
SameRank-trans s t = record {
  pid = t.pid ∙ s.pid;
  oom_score = t.oom_score ∙ s.oom_score;
  vm_rss = t.vm_rss ∙ s.vm_rss;
}

-- `a` is at least as large as `b`: its oom_score is higher, or is the same with an rss no smaller.
infix 4 ◌⊒◌
abbrev pub ◌⊒◌ : ProcInfo → ProcInfo → Type 0
a ⊒ b = (b.oom_score <ℤ a.oom_score) ⊎ ((b.oom_score ≡ a.oom_score) × (b.vm_rss ≤ℤ a.vm_rss))

pub by_score_largest : (a b : ProcInfo) → not_larger_by_score a b ≡ true → a ⊒ b
unfolding not_larger_by_score
by_score_largest a b h = ground arith

pub larger_trans :
    (a b c : ProcInfo)
    → not_larger_by_score a b ≡ true
    → not_larger_by_score b c ≡ true
    → not_larger_by_score a c ≡ true
unfolding not_larger_by_score
larger_trans a b c h k = ground arith

pub larger_total :
    (a b : ProcInfo) → not_larger_by_score a b ≡ false → not_larger_by_score b a ≡ true
unfolding not_larger_by_score
larger_total a b h = ground arith

pub larger_refl : (a : ProcInfo) → not_larger_by_score a a ≡ true
unfolding not_larger_by_score
larger_refl a = ground arith

pub SameRank-larger :
    (a b c : ProcInfo) → SameRank b c → not_larger_by_score a b ≡ not_larger_by_score a c
unfolding not_larger_by_score
SameRank-larger a b c s = rw (s.oom_score, s.vm_rss) refl

pub SameRank-smaller :
    (a b c : ProcInfo) → SameRank a b → not_larger_by_score a c ≡ not_larger_by_score b c
unfolding not_larger_by_score
SameRank-smaller a b c s = rw (s.oom_score, s.vm_rss) refl

module _ (os : Os) where
  pub check_adj-SameRank : (c : ProcInfo) → Returns (λ v. SameRank c v.1) Any (check_adj os c)
  unfolding check_adj
  check_adj-SameRank c = Returns-bind (Returns-Any _) λ r _.
      Returns-branch (λ _. Returns-pure _ (record { pid = refl; oom_score = refl; vm_rss = refl }))
        λ _. Returns-pure _ (record { pid = refl; oom_score = refl; vm_rss = refl })

  pub fill-SameRank : (c : ProcInfo) → Returns (SameRank c) Any (fill_informative_fields os c)
  unfolding fill_informative_fields
  fill-SameRank c = Returns-bind (Returns-Any _) λ name _. Returns-bind (Returns-Any _) λ cmdline _.
      Returns-bind (Returns-Any _)
        λ uid _. Returns-pure _ (record { pid = refl; oom_score = refl; vm_rss = refl })

  pub debug-SameRank : (c : ProcInfo) → Returns (SameRank c) Any (debug_print_procinfo os c)
  unfolding debug_print_procinfo
  debug-SameRank c =
      Returns-bind (Returns-Any _)
        λ debug _. Returns-branch (λ _. fill-SameRank c) λ _. Returns-pure c (SameRank-refl c)
