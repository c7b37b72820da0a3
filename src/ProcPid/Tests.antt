-- ===== src/ProcPid/Tests.antt =====
-- A line of /proc/$pid/stat, and the laws at it.
use earlyoom.Prelude.{◌≡◌, refl, true, false, some, List, [], ◌∷◌, ◌++◌, arith}
use earlyoom.Prelude.Int.{pos, negsuc}
use earlyoom.Prelude.Text.{codes}
use earlyoom.Prelude.Scan.Laws.{Numeral}
use earlyoom.ProcPid.{parse_proc_pid_stat_buf}
use earlyoom.ProcPid.Format.{stat_tail, parse_proc_pid_stat_buf-stat_tail}

abbrev seven : Numeral
seven = record { minus = false; first = b'7'; others = [] }

abbrev minus_12 : Numeral
minus_12 = record { minus = true; first = b'1'; others = b'2' ∷ [] }

abbrev three : List Numeral
three = seven ∷ minus_12 ∷ seven ∷ []

abbrev fifteen : List Numeral
fifteen = three ++ three ++ three ++ three ++ three

parse_proc_pid_stat_buf-stat_tail_example :
    parse_proc_pid_stat_buf (
      codes "42 (a) S 1"
      ++ b')' ∷ b' ' ∷ stat_tail b'R' seven fifteen seven three minus_12 (codes " 0"))
    ≡ some (record { state = b'R'; ppid = pos 7; num_threads = pos 7; rss = negsuc 11 })
parse_proc_pid_stat_buf-stat_tail_example =
    parse_proc_pid_stat_buf-stat_tail (codes "42 (a) S 1") b'R' seven fifteen seven three minus_12
      (codes " 0") (omega arith) (ground arith) (refl, ground arith) (ground arith)
      (refl, ground arith) (ground arith) (refl, ground arith)
