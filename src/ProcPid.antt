-- ===== src/ProcPid.antt =====
-- proc_pid.c: the fields of /proc/$pid/stat that the program needs.
pub mod Format
mod Tests
use earlyoom.Prelude.{Bool, true, false, Option, none, some, List, [], ◌∷◌, ◌++◌, ℕ}
use earlyoom.Prelude.Int.{ℤ, pos, pos_part, int_of_long}
use earlyoom.Prelude.Text.{Bytes, strrchr}
use earlyoom.Prelude.Scan.{Conv, char_conv, int_conv, skip_conv, space_conv, sscanf, scan_int}

pub record PidStat : Type 0 where
  pub state : ℕ
  pub ppid : ℤ
  pub num_threads : ℤ
  pub rss : ℤ

-- The format, line by line as in the source.
abbrev pub stat_format : List Conv
stat_format =
    char_conv ∷ space_conv ∷ int_conv ∷ space_conv ∷ skip_conv ∷ space_conv ∷ skip_conv ∷ space_conv
    ∷ skip_conv ∷ space_conv ∷ skip_conv ∷ space_conv ∷ skip_conv ∷ space_conv ∷ skip_conv
    ∷ space_conv ∷ skip_conv ∷ space_conv ∷ skip_conv ∷ space_conv ∷ skip_conv ∷ space_conv
    ∷ skip_conv ∷ space_conv ∷ skip_conv ∷ space_conv ∷ skip_conv ∷ space_conv ∷ skip_conv
    ∷ space_conv ∷ skip_conv ∷ space_conv ∷ skip_conv ∷ space_conv ∷ int_conv ∷ space_conv
    ∷ skip_conv ∷ space_conv ∷ skip_conv ∷ space_conv ∷ skip_conv ∷ int_conv ∷ space_conv ∷ []

-- `ret == 4`: what was assigned, with `%d` cut to an `int`.
fields : List ℤ → Option PidStat
fields (state ∷ ppid ∷ num_threads ∷ rss ∷ []) = some (record {
  state = pos_part state;
  ppid = int_of_long ppid;
  num_threads = num_threads;
  rss = rss;
})
fields other = none

-- What follows the last ")": the text after the byte behind it, if that byte is not the end.
state_field : Option Bytes → Option Bytes
state_field (some (bracket ∷ next ∷ rest)) = some rest
state_field other = none

-- `none` is the result false. (What is left in `out` then is never read.)
unfoldable pub parse_proc_pid_stat_buf : Bytes → Option PidStat
unfolding fields state_field
parse_proc_pid_stat_buf buf = elim (state_field (strrchr buf b')')) [
  | none ↦ none
  | some text ↦ fields (sscanf stat_format text)
]
