-- ===== src/Prelude/Scan/Laws.antt =====
-- What the conversions read from a number in decimal digits.
use Prim.Native.Nat.{ℕ, ◌+◌, ◌-◌, ◌*◌}
use mathlib.Core.Path.{◌≡◌, refl}
use mathlib.Core.Bool.{Bool, true, false}
use mathlib.Core.Option.{some}
use mathlib.Core.List.{[], ◌∷◌, ◌++◌}
use native.Mathlib.Omega.{arith}
use earlyoom.Prelude.Tests.{if◌then◌else◌}
use earlyoom.Prelude.Lists.{All}
use earlyoom.Prelude.Int.{ℤ}
use earlyoom.Prelude.Text.{Bytes, scan_digits, is_digit}
use earlyoom.Prelude.Scan.{scan_int, signed}

-- A number as it is written: its sign and its digits.
pub record Numeral : Type 0 where
  pub minus : Bool
  pub first : ℕ
  pub others : Bytes

abbrev pub AreDigits : Bytes → Type 0
AreDigits = All (λ c. is_digit c ≡ true)

abbrev pub IsNumeral : Numeral → Type 0
IsNumeral n = (is_digit n.first ≡ true) × AreDigits n.others

-- The digits from the left, behind a number.
abbrev pub digits_value : ℕ → Bytes → ℕ
digits_value n [] = n
digits_value n (c ∷ s) = digits_value (n * 10 + (c - b'0')) s

abbrev pub value : Numeral → ℤ
value n = signed n.minus (digits_value (n.first - b'0') n.others)

abbrev pub written : Numeral → Bytes
written n = if n.minus then b'-' ∷ n.first ∷ n.others else n.first ∷ n.others

-- The text does not go on with a digit.
abbrev pub EndsNumber : Bytes → Type 0
EndsNumber [] = Unit
EndsNumber (c ∷ s) = is_digit c ≡ false

scan_digits-append :
    (s rest : Bytes) (n : ℕ)
    → AreDigits s
    → EndsNumber rest
    → scan_digits (s ++ rest) n true ≡ (digits_value n s, true, rest)
unfolding scan_digits
scan_digits-append [] [] n h e = refl
scan_digits-append [] (c ∷ rest) n h e = ground arith
scan_digits-append (c ∷ s) rest n (h, hs) e = rw h (scan_digits-append s rest _ hs e)

-- White space before it and what follows do not matter.
pub scan_int-written :
    (n : Numeral) (rest : Bytes)
    → IsNumeral n
    → EndsNumber rest
    → scan_int (written n ++ rest) ≡ some (value n, rest)
unfolding scan_int
scan_int-written n rest h e =
    ground (arith, scan_digits-append n.others rest (n.first - b'0') h.1 e)

pub scan_int_space : (s : Bytes) → scan_int (b' ' ∷ s) ≡ scan_int s
unfolding scan_int
scan_int_space s = refl
