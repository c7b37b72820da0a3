-- ===== src/ProcPid/Format.antt =====
-- The parser of /proc/$pid/stat against the format of that file. The process name stands in brackets
-- and may hold any bytes, brackets and spaces among them.
use earlyoom.Prelude.{
  ℕ, zero, suc, ◌≡◌, ◌≢◌, refl, ap, ◌∙◌, none, some, List, [], ◌∷◌, ◌++◌, arith, length, All,
  All-append,
}
use earlyoom.Prelude.Int.{pos, int_of_long}
use earlyoom.Prelude.Text.{Bytes, strrchr, skip_spaces}
use earlyoom.Prelude.Scan.{Conv, char_conv, int_conv, skip_conv, space_conv, sscanf}
use earlyoom.Prelude.Scan.Laws.{
  Numeral, IsNumeral, AreDigits, value, written, EndsNumber, scan_int-written, scan_int_space,
}
use earlyoom.ProcPid.{stat_format, fields, parse_proc_pid_stat_buf}

abbrev pub NoBracket : Bytes → Type 0
NoBracket = All (λ c. c ≢ b')')

strrchr-none : (s : Bytes) → NoBracket s → strrchr s b')' ≡ none
unfolding strrchr
strrchr-none [] h = refl
strrchr-none (c ∷ s) (h, hs) = ground (arith, strrchr-none s hs)

strrchr-append :
    (front rest : Bytes) → NoBracket rest → strrchr (front ++ b')' ∷ rest) b')' ≡ some (b')' ∷ rest)
unfolding strrchr
strrchr-append [] rest h = ground (arith, strrchr-none rest h)
strrchr-append (c ∷ front) rest h = ground (arith, strrchr-append front rest h)

-- Numbers, each behind a space.
pub spaced : List Numeral → Bytes → Bytes
spaced [] rest = rest
spaced (n ∷ ns) rest = b' ' ∷ (written n ++ spaced ns rest)

NoBracket-digits : (s : Bytes) → AreDigits s → NoBracket s
NoBracket-digits [] h = tt
NoBracket-digits (c ∷ s) (h, hs) = (ground arith, NoBracket-digits s hs)

NoBracket-written : (n : Numeral) → IsNumeral n → NoBracket (written n)
NoBracket-written n (h, hs) = ground (arith, NoBracket-digits n.others hs)

NoBracket-spaced :
    (ns : List Numeral) (rest : Bytes)
    → All IsNumeral ns
    → NoBracket rest
    → NoBracket (spaced ns rest)
unfolding spaced
NoBracket-spaced [] rest h r = r
NoBracket-spaced (n ∷ ns) rest (h, hs) r = (
  omega arith,
  All-append _ (written n) _ (NoBracket-written n h) (NoBracket-spaced ns rest hs r),
)

EndsNumber-spaced :
    (ns : List Numeral) (rest : Bytes) → EndsNumber rest → EndsNumber (spaced ns rest)
unfolding spaced
EndsNumber-spaced [] rest e = e
EndsNumber-spaced (n ∷ ns) rest e = refl

skip_spaces-written :
    (n : Numeral) (rest : Bytes)
    → IsNumeral n
    → skip_spaces (b' ' ∷ (written n ++ rest)) ≡ written n ++ rest
unfolding skip_spaces
skip_spaces-written n rest h = ground arith

-- A space and a number of the format read a space and a number of the text.
sscanf_int :
    (n : Numeral) (rest : Bytes) (format : List Conv)
    → IsNumeral n
    → EndsNumber rest
    → sscanf (space_conv ∷ int_conv ∷ format) (b' ' ∷ (written n ++ rest))
      ≡ value n ∷ sscanf format rest
unfolding sscanf
sscanf_int n rest format h e =
    rw (skip_spaces-written n rest h, sscanf) (rw (scan_int-written n rest h e, sscanf))

sscanf_skip :
    (n : Numeral) (rest : Bytes) (format : List Conv)
    → IsNumeral n
    → EndsNumber rest
    → sscanf (space_conv ∷ skip_conv ∷ format) (b' ' ∷ (written n ++ rest)) ≡ sscanf format rest
unfolding sscanf
sscanf_skip n rest format h e =
    rw (skip_spaces-written n rest h, sscanf) (rw (scan_int-written n rest h e, sscanf))

skips : ℕ → List Conv → List Conv
skips zero format = format
skips (suc k) format = space_conv ∷ skip_conv ∷ skips k format

sscanf-skips :
    (k : ℕ) (ns : List Numeral) (rest : Bytes) (format : List Conv)
    → length ns ≡ k
    → All IsNumeral ns
    → EndsNumber rest
    → sscanf (skips k format) (spaced ns rest) ≡ sscanf format rest
unfolding skips spaced
sscanf-skips zero [] rest format l h e = refl
sscanf-skips zero (n ∷ ns) rest format l h e = absurd (omega arith)
sscanf-skips (suc k) [] rest format l h e = absurd (omega arith)
sscanf-skips (suc k) (n ∷ ns) rest format l (h, hs) e =
    sscanf_skip n (spaced ns rest) (skips k format) h (EndsNumber-spaced ns rest e)
    ∙ sscanf-skips k ns rest format (omega arith) hs e

sscanf_char :
    (c : ℕ) (s : Bytes) (format : List Conv)
    → sscanf (char_conv ∷ format) (c ∷ s) ≡ pos c ∷ sscanf format s
unfolding sscanf
sscanf_char c s format = refl

stat_format-skips :
    stat_format
    ≡ char_conv
      ∷ space_conv
      ∷ int_conv
      ∷ skips 15 (space_conv ∷ int_conv ∷ skips 3 (int_conv ∷ space_conv ∷ []))
unfolding skips
stat_format-skips = refl

sscanf_rss :
    (n : Numeral) (rest : Bytes)
    → IsNumeral n
    → EndsNumber rest
    → sscanf (int_conv ∷ space_conv ∷ []) (b' ' ∷ (written n ++ rest)) ≡ value n ∷ []
unfolding sscanf
sscanf_rss n rest h e = rw (scan_int_space (written n ++ rest), scan_int-written n rest h e, sscanf)

-- The text behind the process name: the state, ppid, 15 numbers, num_threads, 3 numbers, rss, and
-- whatever follows.
abbrev pub stat_tail : ℕ → Numeral → List Numeral → Numeral → List Numeral → Numeral → Bytes → Bytes
stat_tail state ppid before threads between rss rest =
    state
    ∷ spaced (ppid ∷ [])
        (spaced before (spaced (threads ∷ []) (spaced between (spaced (rss ∷ []) rest))))

sscanf-stat_tail :
    (state : ℕ) (ppid : Numeral) (before : List Numeral) (threads : Numeral)
    (between : List Numeral) (rss : Numeral) (rest : Bytes)
    → IsNumeral ppid
    → (length before ≡ 15) × All IsNumeral before
    → IsNumeral threads
    → (length between ≡ 3) × All IsNumeral between
    → IsNumeral rss
    → EndsNumber rest
    → sscanf stat_format (stat_tail state ppid before threads between rss rest)
      ≡ pos state ∷ value ppid ∷ value threads ∷ value rss ∷ []
unfolding spaced
sscanf-stat_tail state ppid before threads between rss rest hp (lb, hb) ht (lw, hw) hr e =
    let tail_rss = spaced (rss ∷ []) rest in
    let tail_threads = spaced (threads ∷ []) (spaced between tail_rss) in
    let format_rss = int_conv ∷ space_conv ∷ [] in
    let format_threads = space_conv ∷ int_conv ∷ skips 3 format_rss in
    let r1 : sscanf (skips 3 format_rss) (spaced between tail_rss) ≡ value rss ∷ [] =
      sscanf-skips 3 between tail_rss format_rss lw hw refl ∙ sscanf_rss rss rest hr e in
    let r2 : sscanf format_threads tail_threads ≡ value threads ∷ value rss ∷ [] =
      sscanf_int threads (spaced between tail_rss) (skips 3 format_rss) ht
        (EndsNumber-spaced between tail_rss refl)
      ∙ ap (λ t. value threads ∷ t) r1 in
    let r3 = sscanf-skips 15 before tail_threads format_threads lb hb refl ∙ r2 in
    let r4 =
      sscanf_int ppid (spaced before tail_threads) (skips 15 format_threads) hp
        (EndsNumber-spaced before tail_threads refl)
      ∙ ap (λ t. value ppid ∷ t) r3 in
    rw stat_format-skips (sscanf_char state _ _ ∙ ap (λ t. pos state ∷ t) r4)

-- Whatever the bytes of the name are, the four fields are those behind the last bracket.
pub parse_proc_pid_stat_buf-stat_tail :
    (front : Bytes) (state : ℕ) (ppid : Numeral) (before : List Numeral) (threads : Numeral)
    (between : List Numeral) (rss : Numeral) (rest : Bytes)
    → state ≢ b')'
    → IsNumeral ppid
    → (length before ≡ 15) × All IsNumeral before
    → IsNumeral threads
    → (length between ≡ 3) × All IsNumeral between
    → IsNumeral rss
    → EndsNumber rest × NoBracket rest
    → parse_proc_pid_stat_buf
        (front ++ b')' ∷ b' ' ∷ stat_tail state ppid before threads between rss rest)
      ≡ some (record {
        state = state;
        ppid = int_of_long (value ppid);
        num_threads = value threads;
        rss = value rss;
      })
unfolding parse_proc_pid_stat_buf spaced
parse_proc_pid_stat_buf-stat_tail front state ppid before threads between rss rest hs hp hb ht hw hr
      (e, nb) =
    let clean : NoBracket (b' ' ∷ stat_tail state ppid before threads between rss rest) = (
      omega arith,
      (
        hs,
        NoBracket-spaced (ppid ∷ []) _ (hp, tt)
            (NoBracket-spaced before _ hb.1 (
              NoBracket-spaced (threads ∷ []) _ (ht, tt)
                (NoBracket-spaced between _ hw.1 (NoBracket-spaced (rss ∷ []) rest (hr, tt) nb)))),
      ),
    ) in
    rw (strrchr-append front _ clean, parse_proc_pid_stat_buf)
      (rw (sscanf-stat_tail state ppid before threads between rss rest hp hb ht hw hr e, fields))

-- Text with no bracket is refused, also where a bracket is put at its end.
pub parse_proc_pid_stat_buf_refuses :
    (front : Bytes)
    → NoBracket front
    → (parse_proc_pid_stat_buf front ≡ none) × (parse_proc_pid_stat_buf (front ++ b')' ∷ []) ≡ none)
unfolding parse_proc_pid_stat_buf
parse_proc_pid_stat_buf_refuses front h = (
  rw (strrchr-none front h, parse_proc_pid_stat_buf) refl,
  rw (strrchr-append front [] tt, parse_proc_pid_stat_buf) refl,
)
