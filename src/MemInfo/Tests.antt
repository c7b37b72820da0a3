-- ===== src/MemInfo/Tests.antt =====
-- The laws of /proc/meminfo at concrete texts and amounts.
use earlyoom.Prelude.{◌≡◌, refl, false, some, ◌++◌, arith}
use earlyoom.Prelude.Int.{pos}
use earlyoom.Prelude.Text.{codes}
use earlyoom.Prelude.Scan.Laws.{Numeral, written}
use earlyoom.Double.{◌≼◌}
use earlyoom.Double.Whole.{Whole, whole_double, Whole-IsOrdered, Whole-IsExact}
use earlyoom.Machine.Returns.{Returns}
use earlyoom.MemInfo.{MemInfo, entry, mem_info, parse_meminfo}
use earlyoom.MemInfo.Entry.{padded, entry-written}
use earlyoom.MemInfo.Valid.{IsValid, IsMeminfoError, parse_meminfo-IsValid}
use earlyoom.MemInfo.Range.{mem_info_percent}
use earlyoom.Samples.{roomy_os}

abbrev n400 : Numeral
n400 = record { minus = false; first = b'4'; others = codes "00" }

entry-written_example :
    entry
      (codes "SwapFree:")
      (codes "MemFree: 1 kB\n" ++ codes "SwapFree:" ++ padded 3 (written n400 ++ codes " kB"))
    ≡ (pos 400, some 0)
entry-written_example =
    entry-written (codes "MemFree: 1 kB\n") (codes "SwapFree:") 3 n400 (codes " kB") (ground arith)
      (ground arith) refl (omega arith) (omega arith)

parse_meminfo-IsValid_example :
    Returns (λ (m : MemInfo Whole). IsValid roomy_os m) IsMeminfoError (parse_meminfo roomy_os)
parse_meminfo-IsValid_example = parse_meminfo-IsValid roomy_os

mem_info_percent_example :
    let m = mem_info {W = Whole} (pos 900) (pos 20) (pos 400) (pos 5) (pos 400) in
    ((some (pos 0) ≼ m.mem_available_percent) × (m.mem_available_percent ≼ some (pos 100)))
    × ((some (pos 0) ≼ m.swap_free_percent) × (m.swap_free_percent ≼ some (pos 100)))
mem_info_percent_example =
    mem_info_percent Whole-IsOrdered Whole-IsExact 900 20 400 5 400 (omega arith) (omega arith)
      (omega arith) (omega arith)
