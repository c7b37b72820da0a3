-- ===== src/Prelude/Text.antt =====
-- C text: bytes as numbers, a C string as its bytes before the terminating null byte, and the
-- functions of <string.h>, <ctype.h> and <stdlib.h> that the program calls.
use Prim.Native.Nat.{ℕ, zero, suc, ◌+◌, ◌-◌, ◌*◌, ◌/◌, ◌%◌}
use Prim.Native.Char.{code}
use Prim.Native.String.{String}
use mathlib.Core.Bool.{Bool, true, false, ◌&&◌, ◌||◌}
use mathlib.Core.Option.{Option, none, some}
use mathlib.Core.List.{List, [], ◌∷◌}
use earlyoom.Prelude.Tests.{ltb, leb, ◌==◌, if◌then◌else◌}
use earlyoom.Prelude.Int.{ℤ, pos, negsuc}

abbrev pub Bytes : Type 0
Bytes = List ℕ

-- The bytes of an ASCII literal.
abbrev pub codes : String → Bytes
codes String.[] = []
codes (String.◌∷◌ c s) = code c ∷ codes s

-- A buffer, read as a C string.
unfoldable pub cstr : Bytes → Bytes
cstr [] = []
cstr (c ∷ s) = let rest = cstr s in if c == 0 then [] else c ∷ rest

abbrev pub is_nil : Bytes → Bool
is_nil [] = true
is_nil (c ∷ s) = false

-- `isdigit`, `isspace`
abbrev pub is_digit : ℕ → Bool
is_digit c = leb b'0' c && leb c b'9'

abbrev pub is_space : ℕ → Bool
is_space c = c == 32 || leb 9 c && leb c 13

abbrev pub has_prefix : Bytes → Bytes → Bool
has_prefix [] s = true
has_prefix (p ∷ ps) [] = false
has_prefix (p ∷ ps) (c ∷ s) = p == c && has_prefix ps s

-- `strchr`: the bytes from the first `k` on.
unfoldable pub strchr : Bytes → ℕ → Option Bytes
strchr [] k = none
strchr (c ∷ s) k = let rest = strchr s k in if c == k then some (c ∷ s) else rest

-- `strrchr`: the bytes from the last `k` on.
unfoldable pub strrchr : Bytes → ℕ → Option Bytes
strrchr [] k = none
strrchr (c ∷ s) k = elim (strrchr s k) [
  | some hit ↦ some hit
  | none ↦ if c == k then some (c ∷ s) else none
]

-- `strstr`: the bytes from the first occurrence of `needle` on.
unfoldable pub strstr : Bytes → Bytes → Option Bytes
strstr [] needle = if is_nil needle then some [] else none
strstr (c ∷ s) needle =
    let rest = strstr s needle in if has_prefix needle (c ∷ s) then some (c ∷ s) else rest

unfoldable pub skip_spaces : Bytes → Bytes
skip_spaces [] = []
skip_spaces (c ∷ s) = let rest = skip_spaces s in if is_space c then rest else c ∷ s

-- The digits at the front: the value, whether there was one, and the rest.
unfoldable pub scan_digits : Bytes → ℕ → Bool → ℕ × Bool × Bytes
scan_digits [] n seen = (n, seen, [])
scan_digits (c ∷ s) n seen =
    let rest = scan_digits s (n * 10 + (c - b'0')) true in
    if is_digit c then rest else (n, seen, c ∷ s)

-- "%d": the digits of a number below 10^20, in front of `out`.
digits_before : ℕ → ℕ → Bytes → Bytes
digits_before zero n out = out
digits_before (suc fuel) n out =
    let rest = digits_before fuel (n / 10) ((b'0' + n % 10) ∷ out) in
    if ltb n 10 then (b'0' + n) ∷ out else rest

unfoldable pub decimal : ℤ → Bytes
unfolding digits_before
decimal (pos n) = digits_before 20 n []
decimal (negsuc n) = b'-' ∷ digits_before 20 (suc n) []
