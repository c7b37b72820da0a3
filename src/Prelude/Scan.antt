-- ===== src/Prelude/Scan.antt =====
-- The conversions of `sscanf` and `strtoll` that the program uses.
pub mod Laws
use Prim.Native.Nat.{ℕ}
use mathlib.Core.Bool.{Bool, true, false}
use mathlib.Core.Option.{Option, none, some}
use mathlib.Core.List.{List, [], ◌∷◌}
use earlyoom.Prelude.Tests.{◌==◌, if◌then◌else◌}
use earlyoom.Prelude.Int.{ℤ, pos, neg}
use earlyoom.Prelude.Text.{Bytes, scan_digits, skip_spaces}

abbrev pub signed : Bool → ℕ → ℤ
signed minus n = if minus then neg (pos n) else pos n

-- An optional sign.
abbrev pub sign : Bytes → Bool × Bytes
sign [] = (false, [])
sign (c ∷ s) = if c == b'-' then (true, s) else if c == b'+' then (false, s) else (false, c ∷ s)

-- An integer at the front, behind white space: its value and the rest. (A value that the C type
-- cannot hold is undefined there.)
unfoldable pub scan_int : Bytes → Option (ℤ × Bytes)
unfolding skip_spaces scan_digits
scan_int s =
    let (minus, t) = sign (skip_spaces s) in
    let (n, seen, rest) = scan_digits t 0 false in
    if seen then some (signed minus n, rest) else none

-- %c, %d or %ld, one of these with the value thrown away, and a space.
pub data Conv : Type 0 where
  char_conv int_conv skip_conv space_conv : Conv

-- The values assigned before the first conversion that fails.
unfoldable pub sscanf : List Conv → Bytes → List ℤ
sscanf [] s = []
sscanf (char_conv ∷ format) [] = []
sscanf (char_conv ∷ format) (c ∷ s) = pos c ∷ sscanf format s
sscanf (space_conv ∷ format) s = sscanf format (skip_spaces s)
sscanf (int_conv ∷ format) s = elim (scan_int s) [
  | none ↦ []
  | some (v, rest) ↦ v ∷ sscanf format rest
]
sscanf (skip_conv ∷ format) s = elim (scan_int s) [
  | none ↦ []
  | some (v, rest) ↦ sscanf format rest
]
