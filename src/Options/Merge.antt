-- ===== src/Options/Merge.antt =====
-- Laws of the merge of the limits.
use earlyoom.Prelude.{◌≡◌, Bool, true, false, inl, inr, Bool-cases, arith}
use earlyoom.Prelude.Int.{ℤ, pos, ◌<ℤ◌}
use earlyoom.Double.{Double, ◌≼◌, IsNumber, IsOrdered}
use earlyoom.MemInfo.{MemInfo}
use earlyoom.Options.{Limits, min, merged, share, merge_mem, merge_swap, merge}

-- Multiplying by 100 and dividing by a total keep the order.
pub record IsScaled (W : Type 0) ⦃d : Double W⦄ : Type 0 where
  pub share_mono : (x y : W) (total : ℤ) → pos 0 <ℤ total → x ≼ y → share x total ≼ share y total

module _ {W : Type 0} ⦃d : Double W⦄ (laws : IsOrdered W) where
  open d use {lt, le}
  open laws use {le_trans, le_numbers, lt-eq-not-le, le_total}

  min_mono : (x y z w : W) → x ≼ y → z ≼ w → min x z ≼ min y w
  unfolding min
  min_mono x y z w h k = ground (
    arith,
    le_numbers x y h,
    le_numbers z w k,
    lt-eq-not-le x z,
    lt-eq-not-le y w,
    le_trans x z w,
    le_trans z x y,
    le_total x z,
    le_total y w,
  )

  merged_mono : (have : Bool) (x y z w : W) → x ≼ y → z ≼ w → merged have x z ≼ merged have y w
  unfolding merged
  merged_mono true x y z w h k = min_mono x y z w h k
  merged_mono false x y z w h k = k

  -- Limits of which the SIGKILL value is nowhere above the SIGTERM value keep that order when sizes
  -- and percentages are merged, for totals above zero.
  pub merge_ordered :
      IsScaled W
      → (m : MemInfo W) (l : Limits W) → pos 0 <ℤ m.mem_total
      → pos 0 <ℤ m.swap_total
      → l.args.mem_kill_percent ≼ l.args.mem_term_percent
      → l.args.swap_kill_percent ≼ l.args.swap_term_percent
      → l.mem_kill_kib ≼ l.mem_term_kib
      → l.swap_kill_kib ≼ l.swap_term_kib
      → ((merge m l).mem_kill_percent ≼ (merge m l).mem_term_percent)
        × ((merge m l).swap_kill_percent ≼ (merge m l).swap_term_percent)
  unfolding merge merge_mem merge_swap
  merge_ordered scaled m l pm ps h1 h2 h3 h4 =
      let mem =
        merged_mono l.have_mem_percent _ _ _ _ h1 (scaled.share_mono _ _ m.mem_total pm h3) in
      let swap =
        merged_mono l.have_swap_percent _ _ _ _ h2 (scaled.share_mono _ _ m.swap_total ps h4) in
      elim (Bool-cases l.have_mem_size) [
        | inl e ↦ elim (Bool-cases l.have_swap_size) [
          | inl f ↦ rw (e, f) (mem, swap)
          | inr f ↦ rw (e, f) (mem, h2)
        ]
        | inr e ↦ elim (Bool-cases l.have_swap_size) [
          | inl f ↦ rw (e, f) (h1, swap)
          | inr f ↦ rw (e, f) (h1, h2)
        ]
      ]

  min_lower : (x y : W) → IsNumber x → IsNumber y → (min x y ≼ x) × (min x y ≼ y)
  unfolding min
  min_lower x y nx ny = ground (arith, lt-eq-not-le x y nx ny, le_total x y nx ny)

  -- Where both -m and -M are given, and neither value is NaN, the SIGTERM limit is no higher than
  -- the percentage and no higher than the share of the size.
  pub merge_lower :
      (m : MemInfo W) (l : Limits W)
      → l.have_mem_size ≡ true
      → l.have_mem_percent ≡ true
      → IsNumber l.args.mem_term_percent
      → IsNumber (share l.mem_term_kib m.mem_total)
      → ((merge m l).mem_term_percent ≼ l.args.mem_term_percent)
        × ((merge m l).mem_term_percent ≼ share l.mem_term_kib m.mem_total)
  unfolding merge merge_mem merge_swap merged
  merge_lower m l e f n k =
      let lower = min_lower l.args.mem_term_percent (share l.mem_term_kib m.mem_total) n k in
      elim (Bool-cases l.have_swap_size) [ inl g ↦ rw (e, f, g) lower | inr g ↦ rw (e, f, g) lower ]
