-- ===== src/TermKill/Range.antt =====
-- The range that msg.c promises for the two values, and what becomes of NaN.
use earlyoom.Prelude.{
  length, ltb, ◌≡◌, refl, inl, inr, true, false, Option, none, some, arith, Bool-cases,
}
use earlyoom.Prelude.Int.{ℤ, pos}
use earlyoom.Prelude.Text.{Bytes}
use earlyoom.Double.{Double, ◌≼◌, IsNumber, IsOrdered, zero_of}
use earlyoom.TermKill.{
  TermKillTuple, parse_part, check_tuple, parse_kill, parse_term_kill_tuple, split_comma,
  unless_err, empty_tuple,
}

module _ {W : Type 0} ⦃d : Double W⦄ (laws : IsOrdered W) where
  open d use {of_int, lt, le, eq, div, strtod}
  open laws use {of_int_number, lt-eq-not-le, le_trans, lt_numbers, eq-eq-le, half_nonneg, half-le}

  -- A part that is accepted is NaN or lies between 0 and the limit.
  abbrev pub InRange : ℤ → W → Type 0
  InRange limit x = IsNumber x → (zero_of d ≼ x) × (x ≼ of_int limit)

  not_lt : (x y : W) → IsNumber x → IsNumber y → lt x y ≡ false → y ≼ x
  not_lt x y hx hy e = ground (arith, lt-eq-not-le x y hx hy)

  parse_part-InRange :
      (t : TermKillTuple W) (part : Bytes) (limit : ℤ)
      → t.err ≡ none
      → (parse_part t part limit).0.err ≡ none
      → InRange limit (parse_part t part limit).1
  unfolding parse_part
  parse_part-InRange t part limit h e n =
      let val = (strtod part).0 in
      ground (
        arith,
        not_lt val (zero_of d),
        not_lt (of_int limit) val,
        of_int_number (pos 0),
        of_int_number limit,
      )

  parse_part_term :
      (t : TermKillTuple W) (part : Bytes) (limit : ℤ) → (parse_part t part limit).0.term ≡ t.term
  unfolding parse_part
  parse_part_term t part limit = ground arith

  unless_err_ok :
      (t : TermKillTuple W) (rest : TermKillTuple W → TermKillTuple W)
      → (unless_err t rest).err ≡ none
      → (t.err ≡ none) × (unless_err t rest ≡ rest t)
  unless_err_ok t rest e = ground arith

  -- The range of an accepted tuple.
  pub record IsInRange (limit : ℤ) (t : TermKillTuple W) : Type 0 where
    pub kill_nonneg : zero_of d ≼ t.kill
    pub kill-le-term : t.kill ≼ t.term
    pub term_le : t.term ≼ of_int limit
    pub term_pos : lt (zero_of d) t.term ≡ true

  check_tuple-IsInRange :
      (t : TermKillTuple W) (limit : ℤ)
      → InRange limit t.term
      → (IsNumber t.term → InRange limit t.kill)
      → (check_tuple t).err ≡ none
      → IsNumber (check_tuple t).term
      → IsNumber (check_tuple t).kill
      → IsInRange limit (check_tuple t)
  unfolding check_tuple
  check_tuple-IsInRange t limit rt rk e nt nk =
      let z = zero_of d in
      let k = t.kill in
      let m = t.term in
      ground (
        arith,
        lt_numbers m k,
        eq-eq-le k z,
        eq-eq-le m z,
        lt-eq-not-le z k,
        lt-eq-not-le z m,
        lt-eq-not-le m k,
        le_trans k m z,
        of_int_number (pos 0),
      )

  parse_kill-IsInRange :
      (t : TermKillTuple W) (part2 : Option Bytes) (limit : ℤ)
      → t.err ≡ none
      → InRange limit t.term
      → (parse_kill t part2 limit).err ≡ none
      → IsNumber (parse_kill t part2 limit).term
      → IsNumber (parse_kill t part2 limit).kill
      → IsInRange limit (parse_kill t part2 limit)
  unfolding parse_kill
  parse_kill-IsInRange t none limit ok rt e nt nk =
      let half = div t.term (of_int (pos 2)) in
      check_tuple-IsInRange (record t { kill = half }) limit rt
        (λ n _.
          let (lo, hi) = rt n in
          (half_nonneg t.term lo, le_trans half t.term (of_int limit) (half-le t.term lo) hi))
        e nt nk
  parse_kill-IsInRange t (some part) limit ok rt e nt nk =
      let u = record (parse_part t part limit).0 { kill = (parse_part t part limit).1 } in
      let (f, p) = unless_err_ok u check_tuple e in
      let same : u.term ≡ t.term = parse_part_term t part limit in
      rw p (
        check_tuple-IsInRange u limit (rw same rt) (λ _. parse_part-InRange t part limit ok f)
          (rw p at e) (rw p at nt) (rw p at nk))

  -- Where the parse succeeds and neither value is NaN: 0 <= kill <= term <= upper_limit, and the
  -- SIGTERM value is not zero.
  pub parse_term_kill_tuple-IsInRange :
      (optarg : Bytes) (limit : ℤ)
      → (parse_term_kill_tuple {W = W} optarg limit).err ≡ none
      → IsNumber (parse_term_kill_tuple {W = W} optarg limit).term
      → IsNumber (parse_term_kill_tuple {W = W} optarg limit).kill
      → IsInRange limit (parse_term_kill_tuple {W = W} optarg limit)
  unfolding parse_term_kill_tuple
  parse_term_kill_tuple-IsInRange optarg limit e nt nk =
      elim (Bool-cases (ltb 255 (length optarg))) [
        | inl long ↦ cc (rw long at e)
        | inr fits ↦
            let t = empty_tuple in
            let part1 = (split_comma optarg).0 in
            let part2 = (split_comma optarg).1 in
            let u = record (parse_part t part1 limit).0 { term = (parse_part t part1 limit).1 } in
            let k = λ (u : TermKillTuple W). parse_kill u part2 limit in
            let (f, p) = unless_err_ok u k (rw fits at e) in
            rw fits (
              rw p (
                parse_kill-IsInRange u part2 limit f (parse_part-InRange t part1 limit refl f)
                  (rw p at (rw fits at e)) (rw p at (rw fits at nt)) (rw p at (rw fits at nk))))
      ]
