-- ===== src/Utf8/Tests.antt =====
-- The cases of the repository's unit test of `fix_truncated_utf8`, and instances of its laws.
use earlyoom.Prelude.{◌≡◌, refl, true, [], ◌∷◌, ◌++◌, arith}
use earlyoom.Prelude.Text.{Bytes, codes}
use earlyoom.Utf8.{fix_truncated_utf8}
use earlyoom.Utf8.Laws.{after, utf8, fix_truncated_utf8-utf8, fix_truncated_utf8_whole}

-- "ü" in two bytes, "€" in three.
abbrev umlaut : Bytes
umlaut = 0xc3 ∷ 0xbc ∷ []

abbrev cut_euro : Bytes
cut_euro = b'x' ∷ 0xe2 ∷ 0x82 ∷ []

cut_euro_fixed : fix_truncated_utf8 cut_euro ≡ b'x' ∷ []
unfolding fix_truncated_utf8
cut_euro_fixed = refl

umlaut_kept : fix_truncated_utf8 (b'x' ∷ umlaut) ≡ b'x' ∷ umlaut
unfolding fix_truncated_utf8
umlaut_kept = refl

fix_truncated_utf8-utf8_example : utf8 0 (fix_truncated_utf8 cut_euro) ≡ true
unfolding utf8 after
fix_truncated_utf8-utf8_example = fix_truncated_utf8-utf8 cut_euro (0xac ∷ []) refl (omega arith)

fix_truncated_utf8_whole_example : fix_truncated_utf8 (codes "ab" ++ umlaut) ≡ codes "ab" ++ umlaut
unfolding utf8 after
fix_truncated_utf8_whole_example = fix_truncated_utf8_whole (codes "ab" ++ umlaut) refl
