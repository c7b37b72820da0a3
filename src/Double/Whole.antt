-- ===== src/Double/Whole.antt =====
-- A type that meets the laws: whole numbers, with `none` for NaN. Quotients round towards zero, and
-- a division by zero is NaN. The text reader takes digits with an optional sign, and "nan".
use earlyoom.Prelude.{
  ℕ, ◌*◌, ◌/◌, ◌≤◌, ◌<◌, zero, suc, Bool, false, Option, none, some, [], arith, if◌then◌else◌,
}
use earlyoom.Prelude.Int.{ℤ, pos, negsuc, neg, ◌-ℤ◌, ◌*ℤ◌, quot, ltb_ℤ, leb_ℤ, ◌==ℤ◌}
use earlyoom.Prelude.Text.{Bytes, scan_digits, has_prefix, codes}
use earlyoom.Double.{Double, ◌≼◌, IsOrdered, IsExact}

abbrev pub Whole : Type 0
Whole = Option ℤ

abbrev compare_by : (ℤ → ℤ → Bool) → Whole → Whole → Bool
compare_by f (some a) (some b) = f a b
compare_by f _ _ = false

abbrev lift : (ℤ → ℤ → Whole) → Whole → Whole → Whole
lift f (some a) (some b) = f a b
lift f _ _ = none

abbrev divide : ℤ → ℤ → Whole
divide a (pos zero) = none
divide a (pos (suc d)) = some (quot a (suc d))
divide a (negsuc d) = some (neg (quot a (suc d)))

abbrev truncate : Whole → ℤ
truncate none = pos 0
truncate (some a) = a

abbrev read : Bytes → Whole × Bytes × Bool
read s =
    if has_prefix (codes "nan") s
    then (none, [], false)
    else let (n, _, rest) = scan_digits s 0 false in (some (pos n), rest, false)

instance abbrev pub whole_double : Double Whole
whole_double = record {
  of_int = λ a. some a;
  to_int = truncate;
  lt = compare_by ltb_ℤ;
  le = compare_by leb_ℤ;
  eq = compare_by ◌==ℤ◌;
  sub = lift (λ a b. some (a -ℤ b));
  mul = lift (λ a b. some (a *ℤ b));
  div = lift divide;
  strtod = read;
}

pub Whole-IsOrdered : IsOrdered Whole
Whole-IsOrdered = record {
  of_int_number = λ a. ground arith;
  of_int_mono = λ a b h. ground arith;
  le_numbers = λ x y. ground arith;
  le_trans = λ x y z. ground arith;
  lt-eq-not-le = λ x y. ground arith;
  lt_numbers = λ x y. ground arith;
  le_total = λ x y. ground arith;
  eq-eq-le = λ x y. ground arith;
  half_nonneg = λ x. ground arith;
  half_number = λ x. ground arith;
  half-le = λ x. ground arith;
}

quotient_above : (a b c : ℕ) → 0 < b → c * b ≤ a → some (pos c) ≼ divide (pos a) (pos b)
quotient_above a zero c p h = absurd (omega arith)
quotient_above a (suc b) c p h = let q : c ≤ a / suc b = grind arith in ground arith

quotient_below : (a b c : ℕ) → 0 < b → a ≤ c * b → divide (pos a) (pos b) ≼ some (pos c)
quotient_below a zero c p h = absurd (omega arith)
quotient_below a (suc b) c p h = let q : a / suc b ≤ c = grind arith in ground arith

pub Whole-IsExact : IsExact Whole
Whole-IsExact = record {
  mul_exact = λ a b h. ground arith;
  div_above = λ a b c _ _ _ p h. quotient_above a b c p h;
  div_below = λ a b c _ _ _ p h. quotient_below a b c p h;
}
