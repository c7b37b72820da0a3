-- ===== src/MemInfo/Range.antt =====
-- meminfo.c: the percentages of `parse_meminfo`.
use earlyoom.Prelude.{ℕ, ◌+◌, ◌*◌, ◌^◌, ◌≤◌, ◌<◌, zero, suc, ◌≡◌, arith, if◌then◌else◌}
use earlyoom.Prelude.Int.{pos, ltb_ℤ, ◌+ℤ◌}
use earlyoom.Double.{Double, ◌≼◌, IsOrdered, IsExact, zero_of}
use earlyoom.MemInfo.{mem_info, percent}

module _ {W : Type 0} ⦃d : Double W⦄ where
  -- A share of a whole, in percent.
  share_bounds :
      IsOrdered W
      → IsExact W
      → (a t : ℕ) → a ≤ t
      → 0 < t
      → t < 2 ^ 46
      → (zero_of d ≼ percent (pos a) (pos t)) × (percent (pos a) (pos t) ≼ d.of_int (pos 100))
  share_bounds laws exact a t h p b =
      let product = exact.mul_exact a 100 (omega arith) in
      (
        rw (product, percent)
            (exact.div_above (a * 100) t 0 (omega arith) (omega arith) (omega arith) p
              (omega arith)),
        rw (product, percent)
            (exact.div_below (a * 100) t 100 (omega arith) (omega arith) (omega arith) p
              (omega arith)),
      )

  percent_swap :
      IsOrdered W
      → IsExact W
      → (free total : ℕ) → free ≤ total
      → total < 2 ^ 46
      → let p =
          if ltb_ℤ (pos 0) (pos total) then percent {W = W} (pos free) (pos total) else zero_of d in
        (zero_of d ≼ p) × (p ≼ d.of_int (pos 100))
  percent_swap laws exact free zero h b =
      (laws.of_int_mono 0 0 (omega arith), laws.of_int_mono 0 100 (omega arith))
  percent_swap laws exact free (suc t) h b =
      let both = share_bounds laws exact free (suc t) h (omega arith) (omega arith) in ground arith

  -- Amounts below 2^46 KiB, of which the part is not above the whole, give percentages between 0
  -- and 100, also where there is no swap.
  pub mem_info_percent :
      IsOrdered W
      → IsExact W
      → (mem_total swap_total anon_pages swap_free mem_available : ℕ)
      → 0 < mem_available + anon_pages
      → swap_free ≤ swap_total
      → mem_available + anon_pages < 2 ^ 46
      → swap_total < 2 ^ 46
      → let m =
          mem_info {W = W}
            (pos mem_total)
            (pos swap_total)
            (pos anon_pages)
            (pos swap_free)
            (pos mem_available) in
        ((zero_of d ≼ m.mem_available_percent) × (m.mem_available_percent ≼ d.of_int (pos 100)))
        × ((zero_of d ≼ m.swap_free_percent) × (m.swap_free_percent ≼ d.of_int (pos 100)))
  unfolding mem_info
  mem_info_percent laws exact mem_total swap_total anon_pages swap_free mem_available p s b c =
      let sum : pos mem_available +ℤ pos anon_pages ≡ pos (mem_available + anon_pages) =
        ground arith in
      (
        rw sum (
            share_bounds laws exact mem_available (mem_available + anon_pages) (omega arith) p
              (omega arith)),
        percent_swap laws exact swap_free swap_total s c,
      )
