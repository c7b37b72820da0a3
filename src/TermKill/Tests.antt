-- ===== src/TermKill/Tests.antt =====
-- Runs over whole numbers, and the laws at concrete texts.
use earlyoom.Prelude.{◌≡◌, refl, none, some, arith}
use earlyoom.Prelude.Int.{pos}
use earlyoom.Prelude.Text.{Bytes, codes, scan_digits, strchr}
use earlyoom.Double.Whole.{Whole, whole_double, Whole-IsOrdered}
use earlyoom.TermKill.{
  TermKillTuple, trailing_garbage, exceeds_limit, both_zero, parse_term_kill_tuple, split_comma,
  parse_part, parse_kill, check_tuple,
}
use earlyoom.TermKill.Range.{IsInRange, parse_term_kill_tuple-IsInRange}
use earlyoom.TermKill.Single.{parse_pair}

run : Bytes → TermKillTuple Whole
unfolding parse_term_kill_tuple split_comma strchr parse_part parse_kill check_tuple scan_digits
run text = parse_term_kill_tuple text (pos 100)

raised : run (codes "5,20") ≡ record { err = none; term = some (pos 20); kill = some (pos 20) }
unfolding run
raised = refl

garbage : (run (codes "7x")).err ≡ some trailing_garbage
unfolding run
garbage = refl

above_limit : (run (codes "101")).err ≡ some exceeds_limit
unfolding run
above_limit = refl

zeros : (run (codes "0,0")).err ≡ some both_zero
unfolding run
zeros = refl

parse_term_kill_tuple-IsInRange_example : IsInRange Whole-IsOrdered (pos 100) (run (codes "20,10"))
unfolding run
parse_term_kill_tuple-IsInRange_example =
    parse_term_kill_tuple-IsInRange Whole-IsOrdered (codes "20,10") (pos 100) refl refl refl

parse_pair_example :
    run (codes "5,20") ≡ record { err = none; term = some (pos 20); kill = some (pos 20) }
unfolding run
parse_pair_example =
    parse_pair Whole-IsOrdered (codes "5") (codes "20") (pos 100) (some (pos 5)) (some (pos 20))
      (omega arith) (omega arith) refl refl refl refl refl refl
