-- ===== src/TermKill.antt =====
-- The value of the options -m, -s, -M and -S: `parse_part` and `parse_term_kill_tuple` of msg.c.
-- `tuple.err`, a text in the source, is `none` where that text is empty. The warning that the
-- SIGTERM value is raised is output only, and is left out.
pub mod Range
pub mod Single
mod Tests
use earlyoom.Prelude.{
  ℕ, ◌-◌, Bool, true, false, not, ◌&&◌, Option, none, some, ltb, if◌then◌else◌, length, take, drop,
}
use earlyoom.Prelude.Int.{ℤ, pos}
use earlyoom.Prelude.Text.{Bytes, is_nil, strchr}
use earlyoom.Double.{Double}

pub data TupleError : Type 0 where
  too_long trailing_garbage conversion_error exceeds_limit below_zero both_zero : TupleError

pub record TermKillTuple (W : Type 0) : Type 0 where
  pub err : Option TupleError
  pub term : W
  pub kill : W

abbrev pub msg_len : ℕ
msg_len = 256

-- Null where the pointer is null: the text before the first comma and the text behind it.
unfoldable pub split_comma : Bytes → Bytes × Option Bytes
unfolding strchr
split_comma buf = elim (strchr buf b',') [
  | none ↦ (buf, none)
  | some hit ↦ (take (length buf - length hit) buf, some (drop 1 hit))
]

module _ {W : Type 0} ⦃d : Double W⦄ where
  open d use {of_int, lt, eq, div, strtod}

  abbrev fail : TermKillTuple W → TupleError → TermKillTuple W × W
  fail tuple e = (record tuple { err = some e }, of_int (pos 0))

  -- The tuple with its error set, if there is one, and the value.
  unfoldable pub parse_part : TermKillTuple W → Bytes → ℤ → TermKillTuple W × W
  parse_part tuple part upper_limit =
      let (val, rest, errno) = strtod part in
      if not (is_nil rest)
      then fail tuple trailing_garbage
      else if errno
      then fail tuple conversion_error
      else if lt (of_int upper_limit) val
      then fail tuple exceeds_limit
      else if lt val (of_int (pos 0))
      then fail tuple below_zero
      else (tuple, val)

  -- From "Setting term < kill makes no sense" to the end.
  unfoldable pub check_tuple : TermKillTuple W → TermKillTuple W
  check_tuple tuple =
      let raised = if lt tuple.term tuple.kill then record tuple { term = tuple.kill } else tuple in
      if eq raised.kill (of_int (pos 0)) && eq raised.term (of_int (pos 0))
      then record raised { err = some both_zero }
      else raised

  -- `if (strlen(tuple.err)) return tuple;` before the rest.
  abbrev pub unless_err : TermKillTuple W → (TermKillTuple W → TermKillTuple W) → TermKillTuple W
  unless_err t rest = elim t.err [ some e ↦ t | none ↦ rest t ]

  -- `part2`, or half of the SIGTERM value where there is none.
  unfoldable pub parse_kill : TermKillTuple W → Option Bytes → ℤ → TermKillTuple W
  parse_kill tuple none upper_limit =
      check_tuple (record tuple { kill = div tuple.term (of_int (pos 2)) })
  parse_kill tuple (some part2) upper_limit =
      let (t, kill) = parse_part tuple part2 upper_limit in
      unless_err (record t { kill = kill }) check_tuple

  abbrev pub empty_tuple : TermKillTuple W
  empty_tuple = record { err = none; term = of_int (pos 0); kill = of_int (pos 0) }

  unfoldable pub parse_term_kill_tuple : Bytes → ℤ → TermKillTuple W
  parse_term_kill_tuple optarg upper_limit =
      if ltb (msg_len - 1) (length optarg)
      then record empty_tuple { err = some too_long }
      else (let (part1, part2) = split_comma optarg in
          let (t, term) = parse_part empty_tuple part1 upper_limit in
          unless_err (record t { term = term }) (λ u. parse_kill u part2 upper_limit))
