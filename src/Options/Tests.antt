-- ===== src/Options/Tests.antt =====
-- The limits at concrete options.
use earlyoom.Prelude.{ℕ, ◌≡◌, refl, true, none, some, ◌/◌, ◌≤◌, zero, suc, arith}
use earlyoom.Prelude.Int.{ℤ, pos, negsuc, ◌<ℤ◌, ◌≤ℤ◌, ◌*ℤ◌, quot}
use earlyoom.Prelude.Text.{codes, scan_digits, strchr}
use earlyoom.Double.{◌≼◌}
use earlyoom.Double.Whole.{Whole, whole_double, Whole-IsOrdered}
use earlyoom.MemInfo.{MemInfo}
use earlyoom.TermKill.{parse_term_kill_tuple, split_comma, parse_part, parse_kill, check_tuple}
use earlyoom.Options.{Limits, mem_percent, ok, take_limit, share, merge}
use earlyoom.Options.Merge.{IsScaled, merge_ordered, merge_lower}
use earlyoom.Samples.{default_args, no_limits, roomy}

-- -m 20,10 -M 90,45 on a machine with 900 KiB and 100 KiB of swap.
abbrev both : Limits Whole
both = record no_limits {
  have_mem_percent = true;
  have_mem_size = true;
  mem_term_kib = some (pos 90);
  mem_kill_kib = some (pos 45);
}

abbrev swapping : MemInfo Whole
swapping = record roomy { swap_total = pos 100 }

div_mono : (a b n : ℕ) → a ≤ b → a / suc n ≤ b / suc n
div_mono a b n h = grind arith

times_mono : (a b : ℤ) → a ≤ℤ b → (pos 100 *ℤ a) ≤ℤ (pos 100 *ℤ b)
times_mono a b h = ground arith

quot_mono : (a b : ℤ) (n : ℕ) → a ≤ℤ b → quot a (suc n) ≤ℤ quot b (suc n)
quot_mono (pos a) (pos b) n h = ground (arith, div_mono a b n)
quot_mono (pos a) (negsuc b) n h = absurd (omega arith)
quot_mono (negsuc a) (pos b) n h = ground arith
quot_mono (negsuc a) (negsuc b) n h = ground (arith, div_mono (suc b) (suc a) n)

share_ordered : (x y : Whole) (total : ℤ) → pos 0 <ℤ total → x ≼ y → share x total ≼ share y total
share_ordered none y total p h = cc
share_ordered (some a) none total p h = cc
share_ordered (some a) (some b) (pos zero) p h = absurd (omega arith)
share_ordered (some a) (some b) (negsuc n) p h = absurd (omega arith)
share_ordered (some a) (some b) (pos (suc n)) p h =
    ground (arith, quot_mono (pos 100 *ℤ a) (pos 100 *ℤ b) n (times_mono a b (ground arith)))

Whole-IsScaled : IsScaled Whole
Whole-IsScaled = record { share_mono = share_ordered }

merge_ordered_example :
    ((merge swapping both).mem_kill_percent ≼ (merge swapping both).mem_term_percent)
    × ((merge swapping both).swap_kill_percent ≼ (merge swapping both).swap_term_percent)
merge_ordered_example =
    merge_ordered Whole-IsOrdered Whole-IsScaled swapping both (omega arith) (omega arith) refl refl
      refl refl

merge_lower_example :
    ((merge swapping both).mem_term_percent ≼ some (pos 10))
    × ((merge swapping both).mem_term_percent ≼ share (some (pos 90)) (pos 900))
merge_lower_example = merge_lower Whole-IsOrdered swapping both refl refl refl refl

-- "-m 20,10"
percents :
    take_limit swapping (mem_percent (codes "20,10")) no_limits
    ≡ ok (record no_limits {
      args = record default_args {
        mem_term_percent = some (pos 20);
        mem_kill_percent = some (pos 10);
      };
      have_mem_percent = true;
    })
unfolding take_limit parse_term_kill_tuple split_comma strchr parse_part parse_kill check_tuple
    scan_digits
percents = refl
