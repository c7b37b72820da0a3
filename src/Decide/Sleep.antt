-- ===== src/Decide/Sleep.antt =====
-- Laws of `sleep_time_ms`.
use earlyoom.Prelude.{ℕ, ◌+◌, ◌*◌, ◌/◌, ◌≤◌, ◌<◌, ◌⊎◌, inl, inr, arith, ltb, Bool-cases}
use earlyoom.Prelude.Int.{ℤ, pos, negsuc, ◌<ℤ◌, ◌≤ℤ◌}
use earlyoom.Double.{Double}
use earlyoom.MemInfo.{MemInfo}
use earlyoom.Args.{Args}
use earlyoom.Decide.{headroom, clamped_ms, sleep_time_ms}

clamped_ms_le :
    (h k : ℕ) → 100 < clamped_ms (pos h) (pos k) → clamped_ms (pos h) (pos k) ≤ h / 6000 + k / 800
unfolding clamped_ms
clamped_ms_le h k p = ground arith

clamped_ms_safe :
    (h k : ℤ) (a b : ℕ)
    → (pos 0 ≤ℤ h) × (pos 0 ≤ℤ k)
    → 100 < clamped_ms h k
    → a + b < clamped_ms h k
    → (pos (6000 * a) <ℤ h) ⊎ (pos (800 * b) <ℤ k)
clamped_ms_safe (pos h) (pos k) a b n p q = elim (Bool-cases (ltb (6000 * a) h)) [
  | inl fits ↦ inl (ground arith)
  | inr full ↦ inr (let le : h ≤ 6000 * a = ground arith in omega (arith, clamped_ms_le h k p))
]
clamped_ms_safe (negsuc h) k a b n p q = absurd (omega arith)
clamped_ms_safe h (negsuc k) a b n p q = absurd (omega arith)

module _ {W : Type 0} ⦃d : Double W⦄ where
  -- The time is between 100 and 1000 milliseconds, whatever the doubles are.
  pub sleep_time_ms_bounds :
      (args : Args W) (m : MemInfo W) → (100 ≤ sleep_time_ms args m) × (sleep_time_ms args m ≤ 1000)
  unfolding sleep_time_ms
  sleep_time_ms_bounds args m = ground arith

  headroom_nonneg : (share limit : W) (total : ℤ) → pos 0 ≤ℤ headroom share limit total
  unfolding headroom
  headroom_nonneg share limit total = ground arith

  -- A sleep above the minimum is no longer than memory and then swap take to fill: `a` milliseconds
  -- of filling memory and `b` of filling swap, less than the sleep in all, leave headroom in one.
  pub sleep_time_ms_safe :
      (args : Args W) (m : MemInfo W) (a b : ℕ)
      → 100 < sleep_time_ms args m
      → a + b < sleep_time_ms args m
      → (pos (6000 * a) <ℤ headroom m.mem_available_percent args.mem_term_percent m.user_mem_total)
        ⊎ (pos (800 * b) <ℤ headroom m.swap_free_percent args.swap_term_percent m.swap_total)
  unfolding sleep_time_ms
  sleep_time_ms_safe args m a b p q =
      clamped_ms_safe _ _ a b
        (headroom_nonneg _ _ m.user_mem_total, headroom_nonneg _ _ m.swap_total) p q
