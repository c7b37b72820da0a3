-- ===== src/MemInfo/Entry.antt =====
-- `get_entry` on text that has the entry.
use earlyoom.Prelude.{
  ℕ, zero, suc, ◌≡◌, refl, ◌∙◌, true, false, none, some, [], ◌∷◌, ◌++◌, arith, length, drop,
}
use earlyoom.Prelude.Int.{ℤ, ◌≤ℤ◌}
use earlyoom.Prelude.Text.{Bytes, strstr, has_prefix}
use earlyoom.Prelude.Scan.{scan_int}
use earlyoom.Prelude.Scan.Laws.{
  Numeral, IsNumeral, value, written, EndsNumber, scan_int-written, scan_int_space,
}
use earlyoom.Machine.{minus, enodata}
use earlyoom.MemInfo.{strtoll, entry, llong_max, llong_min}

-- The name occurs nowhere in `before ++ name` but at its end, whatever follows.
abbrev pub FirstAt : Bytes → Bytes → Bytes → Type 0
FirstAt [] name rest = Unit
FirstAt (c ∷ before) name rest =
    (has_prefix name (c ∷ (before ++ name ++ rest)) ≡ false) × FirstAt before name rest

has_prefix-append : (name rest : Bytes) → has_prefix name (name ++ rest) ≡ true
has_prefix-append [] rest = refl
has_prefix-append (c ∷ name) rest = ground (arith, has_prefix-append name rest)

strstr-append :
    (before name rest : Bytes)
    → FirstAt before name rest
    → strstr (before ++ name ++ rest) name ≡ some (name ++ rest)
unfolding strstr
strstr-append [] [] [] h = refl
strstr-append [] [] (c ∷ rest) h = refl
strstr-append [] (c ∷ name) rest h = rw (has_prefix-append (c ∷ name) rest)
strstr-append (c ∷ before) name rest (h, hs) = rw h (strstr-append before name rest hs)

drop-append : (name rest : Bytes) → drop (length name) (name ++ rest) ≡ rest
drop-append [] rest = refl
drop-append (c ∷ name) rest = drop-append name rest

-- Spaces between the name and the number.
abbrev pub padded : ℕ → Bytes → Bytes
padded zero s = s
padded (suc k) s = b' ' ∷ padded k s

scan_int-padded : (k : ℕ) (s : Bytes) → scan_int (padded k s) ≡ scan_int s
scan_int-padded zero s = refl
scan_int-padded (suc k) s = rw (scan_int_space (padded k s)) (scan_int-padded k s)

strtoll-some :
    (s : Bytes) (v : ℤ) (rest : Bytes)
    → scan_int s ≡ some (v, rest)
    → v ≤ℤ llong_max
    → llong_min ≤ℤ v
    → strtoll s ≡ (v, false)
unfolding strtoll
strtoll-some s v rest e hi lo = rw (e, strtoll) (ground arith)

-- An entry is read at the first place where its name occurs.
pub entry-written :
    (before name : Bytes) (k : ℕ) (n : Numeral) (after : Bytes)
    → FirstAt before name (padded k (written n ++ after))
    → IsNumeral n
    → EndsNumber after
    → value n ≤ℤ llong_max
    → llong_min ≤ℤ value n
    → entry name (before ++ name ++ padded k (written n ++ after)) ≡ (value n, some 0)
unfolding entry
entry-written before name k n after f h e hi lo =
    let text = padded k (written n ++ after) in
    let scanned = scan_int-padded k (written n ++ after) ∙ scan_int-written n after h e in
    rw (strstr-append before name text f, entry)
      (rw (drop-append name text, strtoll-some text (value n) after scanned hi lo))

-- Text in which the name does not occur gives -ENODATA, which is below 0.
pub entry_missing :
    (name buf : Bytes) → strstr buf name ≡ none → entry name buf ≡ (minus enodata, none)
unfolding entry
entry_missing name buf h = rw (h, entry)
