-- ===== src/Double.antt =====
-- The type `double` of C: what the program does with it. Its arithmetic is the machine's, so it is a
-- parameter, and the laws that the proofs use are those of IEEE 754, NaN included.
pub mod Whole
use earlyoom.Prelude.{ℕ, ◌≡◌, ◌⊎◌, Bool, true, not, ◌&&◌, ◌^◌, ◌*◌, ◌≤◌, ◌<◌}
use earlyoom.Prelude.Int.{ℤ, pos}
use earlyoom.Prelude.Text.{Bytes}

pub record Double (W : Type 0) : Type 0 where
  -- `(double)n` and `(long long)x`
  pub of_int : ℤ → W
  pub to_int : W → ℤ
  pub lt : W → W → Bool
  pub le : W → W → Bool
  pub eq : W → W → Bool
  pub sub : W → W → W
  pub mul : W → W → W
  pub div : W → W → W
  -- `strtod`: the value, the text at `endptr`, and whether `errno` was set
  pub strtod : Bytes → W × Bytes × Bool

infix 4 ◌≼◌
abbrev pub ◌≼◌ : {W : Type 0} ⦃d : Double W⦄ → W → W → Type 0
◌≼◌ ⦃d⦄ x y = d.le x y ≡ true

-- Not NaN.
abbrev pub IsNumber : {W : Type 0} ⦃d : Double W⦄ → W → Type 0
IsNumber x = x ≼ x

abbrev pub zero_of : {W : Type 0} → Double W → W
zero_of d = d.of_int (pos 0)

-- How comparisons and halving behave.
pub record IsOrdered (W : Type 0) ⦃d : Double W⦄ : Type 0 where
  pub of_int_number : (a : ℤ) → IsNumber (d.of_int a)
  pub of_int_mono : (a b : ℕ) → a ≤ b → d.of_int (pos a) ≼ d.of_int (pos b)
  pub le_numbers : (x y : W) → x ≼ y → IsNumber x × IsNumber y
  pub le_trans : (x y z : W) → x ≼ y → y ≼ z → x ≼ z
  pub lt-eq-not-le : (x y : W) → IsNumber x → IsNumber y → d.lt x y ≡ not (d.le y x)
  pub lt_numbers : (x y : W) → d.lt x y ≡ true → IsNumber x × IsNumber y
  pub le_total : (x y : W) → IsNumber x → IsNumber y → (x ≼ y) ⊎ (y ≼ x)
  pub eq-eq-le : (x y : W) → d.eq x y ≡ (d.le x y && d.le y x)
  pub half_nonneg : (x : W) → zero_of d ≼ x → zero_of d ≼ d.div x (d.of_int (pos 2))
  pub half_number : (x : W) → IsNumber (d.div x (d.of_int (pos 2))) → IsNumber x
  pub half-le : (x : W) → zero_of d ≼ x → d.div x (d.of_int (pos 2)) ≼ x

-- Whole numbers below 2^53 are exact: so is a product of two that stays below, and a quotient, which
-- is rounded, does not cross a whole number.
pub record IsExact (W : Type 0) ⦃d : Double W⦄ : Type 0 where
  pub mul_exact :
      (a b : ℕ)
      → a * b < 2 ^ 53
      → d.mul (d.of_int (pos a)) (d.of_int (pos b)) ≡ d.of_int (pos (a * b))
  pub div_above :
      (a b c : ℕ)
      → a < 2 ^ 53
      → b < 2 ^ 53
      → c < 2 ^ 53
      → 0 < b
      → c * b ≤ a
      → d.of_int (pos c) ≼ d.div (d.of_int (pos a)) (d.of_int (pos b))
  pub div_below :
      (a b c : ℕ)
      → a < 2 ^ 53
      → b < 2 ^ 53
      → c < 2 ^ 53
      → 0 < b
      → a ≤ c * b
      → d.div (d.of_int (pos a)) (d.of_int (pos b)) ≼ d.of_int (pos c)
