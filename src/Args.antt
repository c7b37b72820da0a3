-- ===== src/Args.antt =====
-- `poll_loop_args_t` of kill.h. A null pointer is `none`, and a compiled regular expression is the
-- test that `regexec` makes with it.
use earlyoom.Prelude.{ℕ, Bool, Option}
use earlyoom.Prelude.Int.{ℤ}
use earlyoom.Prelude.Text.{Bytes}

pub record Args (W : Type 0) : Type 0 where
  pub mem_term_percent : W
  pub mem_kill_percent : W
  pub swap_term_percent : W
  pub swap_kill_percent : W
  pub notify : Bool
  pub notify_ext : Option Bytes
  pub kill_process_prehook : Option Bytes
  pub kill_process_group : Bool
  pub ignore_root_user : Bool
  pub sort_by_rss : Bool
  pub prefer_regex : Option (Bytes → Bool)
  pub avoid_regex : Option (Bytes → Bool)
  pub ignore_regex : Option (Bytes → Bool)
  pub report_interval_ms : ℤ
  pub dryrun : Bool
  pub kernel_oom : Bool

-- The signals that the program sends.
abbrev pub sigterm : ℕ
sigterm = 15

abbrev pub sigkill : ℕ
sigkill = 9
