-- ===== src/TermKill/Single.antt =====
-- `parse_term_kill_tuple` of msg.c on one value, on two, and on NaN.
use earlyoom.Prelude.{
  ◌-◌, ◌≤◌, ◌≡◌, ◌≢◌, refl, true, false, Option, none, some, [], ◌∷◌, ◌++◌, arith, ltb, length, ◌∙◌,
  ◌⊎◌, if◌then◌else◌, take, All, inl, inr, length-append,
}
use earlyoom.Prelude.Int.{ℤ, pos}
use earlyoom.Prelude.Text.{Bytes, strchr}
use earlyoom.Double.{Double, ◌≼◌, IsNumber, IsOrdered, zero_of}
use earlyoom.TermKill.{
  TermKillTuple, parse_part, check_tuple, parse_kill, parse_term_kill_tuple, split_comma,
  empty_tuple,
}

abbrev pub NoComma : Bytes → Type 0
NoComma = All (λ c. c ≢ b',')

strchr-none : (s : Bytes) → NoComma s → strchr s b',' ≡ none
unfolding strchr
strchr-none [] h = refl
strchr-none (c ∷ s) (h, hs) = ground (arith, strchr-none s hs)

strchr-append : (s r : Bytes) → NoComma s → strchr (s ++ b',' ∷ r) b',' ≡ some (b',' ∷ r)
unfolding strchr
strchr-append [] r h = ground arith
strchr-append (c ∷ s) r (h, hs) = ground (arith, strchr-append s r hs)

take-append : (s r : Bytes) → take (length s) (s ++ r) ≡ s
take-append [] r = refl
take-append (c ∷ s) r = rw (take-append s r)

split_comma-none : (s : Bytes) → NoComma s → split_comma s ≡ (s, none)
unfolding split_comma
split_comma-none s h = rw (strchr-none s h, split_comma)

split_comma_pair : (s r : Bytes) → NoComma s → split_comma (s ++ b',' ∷ r) ≡ (s, some r)
unfolding split_comma
split_comma_pair s r h =
    let n : length (s ++ b',' ∷ r) - length (b',' ∷ r) ≡ length s =
      omega (arith, length-append s (b',' ∷ r)) in
    rw (strchr-append s r h, split_comma) (rw (n, take-append s (b',' ∷ r)))

module _ {W : Type 0} ⦃d : Double W⦄ (laws : IsOrdered W) where
  open d use {of_int, lt, le, eq, div, strtod}
  open laws use {
    of_int_number, lt-eq-not-le, lt_numbers, le_numbers, le_total, eq-eq-le, half_nonneg, half-le,
  }

  -- What `strtod` makes of a text that it reads to the end without an error.
  abbrev pub Reads : Bytes → W → Type 0
  Reads s v = strtod s ≡ (v, [], false)

  not_lt : (x y : W) → y ≼ x → lt x y ≡ false
  not_lt x y h = ground (arith, le_numbers y x h, lt-eq-not-le x y)

  parse_part_ok :
      (t : TermKillTuple W) (s : Bytes) (limit : ℤ) (v : W)
      → Reads s v
      → lt (of_int limit) v ≡ false
      → lt v (of_int (pos 0)) ≡ false
      → parse_part t s limit ≡ (t, v)
  unfolding parse_part
  parse_part_ok t s limit v r e f = rw (r, e, f)

  -- The first part is read; the rest of the work is on the second part.
  parse_front :
      (text s : Bytes) (part2 : Option Bytes) (limit : ℤ) (v : W)
      → length text ≤ 255
      → split_comma text ≡ (s, part2)
      → Reads s v
      → lt (of_int limit) v ≡ false
      → lt v (of_int (pos 0)) ≡ false
      → parse_term_kill_tuple text limit
        ≡ parse_kill (record { err = none; term = v; kill = of_int (pos 0) }) part2 limit
  unfolding parse_term_kill_tuple
  parse_front text s part2 limit v l c r e f =
      let fits : ltb 255 (length text) ≡ false = ground arith in
      rw fits (rw c (rw (parse_part_ok empty_tuple s limit v r e f)))

  check_tuple_ok :
      (v w : W)
      → (eq w (zero_of d) ≡ false) ⊎ (eq v (zero_of d) ≡ false) × (lt v w ≡ false)
      → check_tuple (record { err = none; term = v; kill = w })
        ≡ record { err = none; term = if lt v w then w else v; kill = w }
  unfolding check_tuple
  check_tuple_ok v w h = ground arith

  positive : (v : W) → lt (zero_of d) v ≡ true → (zero_of d ≼ v) × (eq v (zero_of d) ≡ false)
  positive v h = ground (
    arith,
    lt_numbers (zero_of d) v h,
    lt-eq-not-le (zero_of d) v,
    eq-eq-le v (zero_of d),
    le_total (zero_of d) v,
  )

  -- -m nan is accepted: every check of the code holds of NaN.
  pub parse_nan :
      (s : Bytes) (limit : ℤ) (v : W)
      → length s ≤ 255
      → NoComma s
      → Reads s v
      → ¬ (IsNumber v)
      → parse_term_kill_tuple s limit
        ≡ record { err = none; term = v; kill = div v (of_int (pos 2)) }
  unfolding parse_kill
  parse_nan s limit v l c r n =
      let half = div v (of_int (pos 2)) in
      let low : lt v half ≡ false = ground (arith, lt_numbers v half) in
      parse_front s s none limit v l (split_comma-none s c) r
        (ground (arith, lt_numbers (of_int limit) v)) (ground (arith, lt_numbers v (zero_of d)))
      ∙ check_tuple_ok v half
          (inr (ground (arith, eq-eq-le v (zero_of d), le_numbers v (zero_of d)), low))
      ∙ rw low

  -- A value in range with no comma sets the SIGTERM value, and half of it is the SIGKILL value.
  parse_single :
      (s : Bytes) (limit : ℤ) (v : W)
      → length s ≤ 255
      → NoComma s
      → Reads s v
      → lt (zero_of d) v ≡ true
      → v ≼ of_int limit
      → parse_term_kill_tuple s limit
        ≡ record { err = none; term = v; kill = div v (of_int (pos 2)) }
  unfolding parse_kill
  parse_single s limit v l c r p q =
      let half = div v (of_int (pos 2)) in
      let (lo, pos_v) = positive v p in
      let low : lt v half ≡ false = not_lt v half (half-le v lo) in
      parse_front s s none limit v l (split_comma-none s c) r (not_lt _ _ q) (not_lt _ _ lo)
      ∙ check_tuple_ok v half (inr (pos_v, low))
      ∙ rw low

  -- Two values in range, the second one not zero: it is the SIGKILL value, and the SIGTERM value is
  -- the first one or, if that is below it, the second one too.
  pub parse_pair :
      (s t : Bytes) (limit : ℤ) (v w : W)
      → length (s ++ b',' ∷ t) ≤ 255
      → NoComma s
      → Reads s v
      → Reads t w
      → zero_of d ≼ v
      → v ≼ of_int limit
      → lt (zero_of d) w ≡ true
      → w ≼ of_int limit
      → parse_term_kill_tuple (s ++ b',' ∷ t) limit
        ≡ record { err = none; term = if lt v w then w else v; kill = w }
  unfolding parse_kill
  parse_pair s t limit v w l c r r' p q p' q' =
      let (lo, pos_w) = positive w p' in
      parse_front (s ++ b',' ∷ t) s (some t) limit v l (split_comma_pair s t c) r (not_lt _ _ q)
        (not_lt _ _ p)
      ∙ rw
          (parse_part_ok (record { err = none; term = v; kill = of_int (pos 0) }) t limit w r'
            (not_lt _ _ q') (not_lt _ _ lo))
          (check_tuple_ok v w (inl pos_w))
