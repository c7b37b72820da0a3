-- ===== src/Utf8/Laws.antt =====
-- What `fix_truncated_utf8` does to UTF-8 text that was cut short.
use Prim.Native.Nat.{bit_and}
use mathlib.Core.List.{append-nil}
use earlyoom.Prelude.{
  ℕ, zero, suc, ◌+◌, ◌-◌, ◌≤◌, ◌<◌, ◌≡◌, refl, sym, ap, Bool, true, false, not, Option, none, some,
  inl, inr, Option-cases, Bool-cases, ◌&&◌, [], ◌∷◌, ◌++◌, arith, ltb, leb, ◌==◌, if◌then◌else◌,
  length,
}
use earlyoom.Prelude.Text.{Bytes}
use earlyoom.Utf8.{fix_tail, fix_at, fix_truncated_utf8}

-- `c` is in `[lo, hi)`.
abbrev within : ℕ → ℕ → ℕ → Bool
within lo hi c = leb lo c && ltb c hi

-- The states of a recogniser: how many continuation bytes the sequence still lacks.
unfoldable pub after : ℕ → ℕ → Option ℕ
after (suc k) c = if within 0x80 0xc0 c then some k else none
after zero c =
    if ltb c 0x80
    then some 0
    else if within 0xc0 0xe0 c
    then some 1
    else if within 0xe0 0xf0 c
    then some 2
    else if within 0xf0 0xf8 c
    then some 3
    else none

-- The bytes are UTF-8, where the first ones end a sequence that lacks so many bytes.
unfoldable pub utf8 : ℕ → Bytes → Bool
utf8 k [] = k == 0
utf8 k (c ∷ s) = elim (after k c) [ none ↦ false | some j ↦ utf8 j s ]

utf8-cons :
    (k c : ℕ) (s : Bytes)
    → utf8 k (c ∷ s) ≡ true
    → (j : ℕ) × (after k c ≡ some j) × (utf8 j s ≡ true)
unfolding utf8
utf8-cons k c s h = elim (Option-cases (after k c)) [
  | inl e ↦ cc (rw (e, utf8) at h)
  | inr (j, e) ↦ (j, e, rw (e, utf8) at h)
]

utf8_front :
    (k c : ℕ) (s : Bytes) {j : ℕ} → after k c ≡ some j → utf8 j s ≡ true → utf8 k (c ∷ s) ≡ true
unfolding utf8
utf8_front k c s e h = rw (e, utf8) h

utf8-nil : (k : ℕ) → utf8 k [] ≡ true → k ≡ 0
unfolding utf8
utf8-nil k h = ground arith

after_byte : (k c : ℕ) {j : ℕ} → k ≤ 3 → after k c ≡ some j → (c < 256) × (j ≤ 3)
unfolding after
after_byte zero c hk e = ground arith
after_byte (suc k) c hk e = ground arith

module _ (p : ℕ → Bool) where
  all_below : ℕ → Bool
  all_below zero = true
  all_below (suc n) = p n && all_below n

  all_below_sound : (n c : ℕ) → all_below n ≡ true → c < n → p c ≡ true
  unfolding all_below
  all_below_sound zero c h lt = absurd (omega arith)
  all_below_sound (suc n) c h lt = ground (arith, all_below_sound n c)

-- The four tests of the code, as comparisons of a byte.
abbrev same : Bool → Bool → Bool
same true b = b
same false true = false
same false false = true

same-eq : (a b : Bool) → same a b ≡ true → a ≡ b
same-eq a b h = ground arith

top_bit : (c : ℕ) → c < 256 → (bit_and c 0x80 == 0) ≡ ltb c 0x80
unfolding all_below
top_bit c h =
    same-eq _ _ (all_below_sound (λ n. same (bit_and n 0x80 == 0) (ltb n 0x80)) 256 c refl h)

three_bits : (c : ℕ) → c < 256 → (bit_and c 0xe0 == 0xe0) ≡ leb 0xe0 c
unfolding all_below
three_bits c h =
    same-eq _ _ (all_below_sound (λ n. same (bit_and n 0xe0 == 0xe0) (leb 0xe0 n)) 256 c refl h)

four_bits : (c : ℕ) → c < 256 → (bit_and c 0xf0 == 0xf0) ≡ leb 0xf0 c
unfolding all_below
four_bits c h =
    same-eq _ _ (all_below_sound (λ n. same (bit_and n 0xf0 == 0xf0) (leb 0xf0 n)) 256 c refl h)

next_bit_low : (c : ℕ) → c < 0x80 → (bit_and (c + 0x80) 0x40 == 0) ≡ ltb (c + 0x80) 0xc0
unfolding all_below
next_bit_low c h =
    same-eq _ _ (
      all_below_sound (λ n. same (bit_and (n + 0x80) 0x40 == 0) (ltb (n + 0x80) 0xc0)) 128 c refl h)

next_bit : (c : ℕ) → 0x80 ≤ c → c < 256 → (bit_and c 0x40 == 0) ≡ ltb c 0xc0
next_bit c lo hi =
    let e : c - 0x80 + 0x80 ≡ c = omega arith in rw e at (next_bit_low (c - 0x80) (omega arith))

fix_tail_lem :
    (b0 b1 b2 : ℕ)
    → b0 < 256
    → b1 < 256
    → b2 < 256
    → fix_tail b0 b1 b2 ≡ (
        if ltb b2 0x80
        then b0 ∷ b1 ∷ b2 ∷ []
        else if leb 0xc0 b2
        then b0 ∷ b1 ∷ []
        else if leb 0xe0 b1
        then b0 ∷ []
        else if leb 0xf0 b0
        then []
        else b0 ∷ b1 ∷ b2 ∷ [])
unfolding fix_tail
fix_tail_lem b0 b1 b2 h0 h1 h2 =
    ground (arith, top_bit b2, next_bit b2, three_bits b1, four_bits b0)

-- The window moves along with the front of the text.
fix_cons :
    (c : ℕ) (s : Bytes)
    → 3 ≤ length s
    → fix_at (suc (length s) - 3) (c ∷ s) ≡ c ∷ fix_at (length s - 3) s
unfolding fix_at
fix_cons c s h = let e : suc (length s) - 3 ≡ suc (length s - 3) = omega arith in rw e

utf8-fix_tail :
    (k i j m b0 b1 b2 : ℕ)
    → k ≤ 3
    → after k b0 ≡ some i
    → after i b1 ≡ some j
    → after j b2 ≡ some m
    → utf8 k (fix_tail b0 b1 b2) ≡ true
unfolding utf8 after
utf8-fix_tail zero zero zero m b0 b1 b2 hk e0 e1 e2 = ground (arith, fix_tail_lem b0 b1 b2)
utf8-fix_tail zero zero (suc j) m b0 b1 b2 hk e0 e1 e2 = ground (arith, fix_tail_lem b0 b1 b2)
utf8-fix_tail zero (suc i) j m b0 b1 b2 hk e0 e1 e2 = ground (arith, fix_tail_lem b0 b1 b2)
utf8-fix_tail (suc k) i j m b0 b1 b2 hk e0 e1 e2 = ground (arith, fix_tail_lem b0 b1 b2)

-- Text that ends in whole sequences is left alone.
fix_tail_whole :
    (k i j b0 b1 b2 : ℕ)
    → k ≤ 3
    → after k b0 ≡ some i
    → after i b1 ≡ some j
    → after j b2 ≡ some 0
    → fix_tail b0 b1 b2 ≡ b0 ∷ b1 ∷ b2 ∷ []
unfolding after
fix_tail_whole zero zero zero b0 b1 b2 hk e0 e1 e2 = ground (arith, fix_tail_lem b0 b1 b2)
fix_tail_whole zero zero (suc j) b0 b1 b2 hk e0 e1 e2 = ground (arith, fix_tail_lem b0 b1 b2)
fix_tail_whole zero (suc i) j b0 b1 b2 hk e0 e1 e2 = ground (arith, fix_tail_lem b0 b1 b2)
fix_tail_whole (suc k) i j b0 b1 b2 hk e0 e1 e2 = ground (arith, fix_tail_lem b0 b1 b2)

utf8-fix_at :
    (k : ℕ) (s r : Bytes)
    → k ≤ 3
    → utf8 k (s ++ r) ≡ true
    → 3 ≤ length s
    → utf8 k (fix_at (length s - 3) s) ≡ true
utf8-fix_at k [] r hk h l = absurd (omega arith)
utf8-fix_at k (c ∷ []) r hk h l = absurd (omega arith)
utf8-fix_at k (c ∷ d ∷ []) r hk h l = absurd (omega arith)
utf8-fix_at k (b0 ∷ b1 ∷ b2 ∷ []) r hk h l =
    let (i, e0, h0) = utf8-cons k b0 _ h in
    let (j, e1, h1) = utf8-cons i b1 _ h0 in
    let (m, e2, _) = utf8-cons j b2 r h1 in
    unfold fix_at in utf8-fix_tail k i j m b0 b1 b2 hk e0 e1 e2
utf8-fix_at k (c ∷ d ∷ e ∷ f ∷ s) r hk h l =
    let (j, e0, h0) = utf8-cons k c _ h in
    let ih = utf8-fix_at j (d ∷ e ∷ f ∷ s) r (after_byte k c hk e0).1 h0 (omega arith) in
    rw (fix_cons c (d ∷ e ∷ f ∷ s) (omega arith)) (utf8_front k c _ e0 ih)

fix_at_whole :
    (k : ℕ) (s : Bytes) → k ≤ 3 → utf8 k s ≡ true → 3 ≤ length s → fix_at (length s - 3) s ≡ s
fix_at_whole k [] hk h l = absurd (omega arith)
fix_at_whole k (c ∷ []) hk h l = absurd (omega arith)
fix_at_whole k (c ∷ d ∷ []) hk h l = absurd (omega arith)
fix_at_whole k (b0 ∷ b1 ∷ b2 ∷ []) hk h l =
    let (i, e0, h0) = utf8-cons k b0 _ h in
    let (j, e1, h1) = utf8-cons i b1 _ h0 in
    let (m, e2, h2) = utf8-cons j b2 [] h1 in
    unfold fix_at in fix_tail_whole k i j b0 b1 b2 hk e0 e1 (rw (utf8-nil m h2) at e2)
fix_at_whole k (c ∷ d ∷ e ∷ f ∷ s) hk h l =
    let (j, e0, h0) = utf8-cons k c _ h in
    let ih = fix_at_whole j (d ∷ e ∷ f ∷ s) (after_byte k c hk e0).1 h0 (omega arith) in
    rw (fix_cons c (d ∷ e ∷ f ∷ s) (omega arith)) (rw ih)

-- A string of three bytes or more that is the front part of UTF-8 text, cut at any byte, becomes
-- UTF-8 text.
pub fix_truncated_utf8-utf8 :
    (s r : Bytes) → utf8 0 (s ++ r) ≡ true → 3 ≤ length s → utf8 0 (fix_truncated_utf8 s) ≡ true
unfolding fix_truncated_utf8
fix_truncated_utf8-utf8 s r h l = let ih = utf8-fix_at 0 s r (omega arith) h l in ground arith

-- UTF-8 text that was not cut inside a sequence is left as it is.
pub fix_truncated_utf8_whole : (s : Bytes) → utf8 0 s ≡ true → fix_truncated_utf8 s ≡ s
unfolding fix_truncated_utf8
fix_truncated_utf8_whole s h = elim (Bool-cases (ltb (length s) 3)) [
  | inl e ↦ rw e
  | inr e ↦ rw e (fix_at_whole 0 s (omega arith) h (ground arith))
]

-- The string without at most three bytes at its end.
pub record Shortened (s t : Bytes) : Type 0 where
  pub lost : Bytes
  pub split : s ≡ t ++ lost
  pub at_most : length lost ≤ 3

abbrev shortened : {s t : Bytes} (r : Bytes) → s ≡ t ++ r → length r ≤ 3 → Shortened s t
shortened r e l = record { lost = r; split = e; at_most = l }

Shortened-refl : (s : Bytes) → Shortened s s
Shortened-refl s = shortened [] (sym (append-nil s)) (omega arith)

Shortened-if :
    {s x y : Bytes} (b : Bool) → Shortened s x → Shortened s y → Shortened s (if b then x else y)
Shortened-if true hx hy = hx
Shortened-if false hx hy = hy

fix_tail-Shortened : (b0 b1 b2 : ℕ) → Shortened (b0 ∷ b1 ∷ b2 ∷ []) (fix_tail b0 b1 b2)
unfolding fix_tail
fix_tail-Shortened b0 b1 b2 =
    let whole = Shortened-refl (b0 ∷ b1 ∷ b2 ∷ []) in
    Shortened-if (bit_and b2 0x80 == 0) whole (
      Shortened-if (not (bit_and b2 0x40 == 0)) (shortened (b2 ∷ []) refl (omega arith)) (
        Shortened-if (bit_and b1 0xe0 == 0xe0) (shortened (b1 ∷ b2 ∷ []) refl (omega arith)) (
          Shortened-if (bit_and b0 0xf0 == 0xf0) (shortened (b0 ∷ b1 ∷ b2 ∷ []) refl (omega arith))
            whole)))

fix_at-Shortened : (n : ℕ) (s : Bytes) → Shortened s (fix_at n s)
unfolding fix_at
fix_at-Shortened zero (b0 ∷ b1 ∷ b2 ∷ []) = fix_tail-Shortened b0 b1 b2
fix_at-Shortened (suc n) (c ∷ s) =
    let ih = fix_at-Shortened n s in shortened ih.lost (ap (λ t. c ∷ t) ih.split) ih.at_most
fix_at-Shortened n s = Shortened-refl _

-- Whatever the bytes are, the result is the string less at most three bytes at its end.
pub fix_truncated_utf8-Shortened : (s : Bytes) → Shortened s (fix_truncated_utf8 s)
unfolding fix_truncated_utf8
fix_truncated_utf8-Shortened s =
    Shortened-if (ltb (length s) 3) (Shortened-refl s) (fix_at-Shortened (length s - 3) s)
