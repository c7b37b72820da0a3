-- ===== src/Messages.antt =====
-- msg.c: `fatal`, `warn`, `debug` and `info`, down to the streams and the system log.
--
-- `getenv` and `isatty` answer as they like each time; `vfprintf` and `vsyslog` format a message with
-- the parameter `vformat`. What a function writes and asks is in the state, the newest first.
-- `fmt` is not empty in the source, whose test of the last byte reads in front of an empty one.
pub mod Decided
pub mod Cached
pub mod Asked
mod Tests
use earlyoom.Prelude.{
  ℕ, Bool, true, false, not, ◌&&◌, ◌==◌, Option, none, some, List, [], ◌∷◌, ◌++◌, ◌-◌, take,
  if◌then◌else◌,
}
use earlyoom.Prelude.Text.{Bytes, codes}
use earlyoom.TermKill.{msg_len}

pub data Stream : Type 0 where
  stdout stderr other : Stream

pub data Query : Type 0 where
  getenv_no_color : Query
  isatty : Stream → Query

pub data Output : Type 0 where
  fputs : Stream → Bytes → Output
  vfprintf : Stream → Bytes → Output
  fflush : Stream → Output
  vsyslog : ℕ → Bytes → Output
  openlog atexit_closelog : Output

-- The answers, given what was asked before: whether NO_COLOR is set, and whether a stream is a
-- terminal.
pub record Env : Type 0 where
  pub no_color : List Query → Bool
  pub is_tty : List Query → Stream → Bool

-- The static variables; -1 is `none`.
pub record Sinks : Type 0 where
  pub use_syslog : Bool
  pub no_color : Option Bool
  pub stdout_is_tty : Option Bool
  pub stderr_is_tty : Option Bool
  pub asked : List Query
  pub written : List Output

abbrev pub initial_sinks : Sinks
initial_sinks = record {
  use_syslog = false;
  no_color = none;
  stdout_is_tty = none;
  stderr_is_tty = none;
  asked = [];
  written = [];
}

-- A static variable as C reads it.
abbrev pub flag : Option Bool → Bool
flag none = true
flag (some b) = b

abbrev pub log_err : ℕ
log_err = 3

abbrev pub log_warning : ℕ
log_warning = 4

abbrev pub log_info : ℕ
log_info = 6

abbrev pub log_debug : ℕ
log_debug = 7

abbrev pub red : Bytes
red = 27 ∷ codes "[31m"

abbrev pub yellow : Bytes
yellow = 27 ∷ codes "[33m"

abbrev pub gray : Bytes
gray = 27 ∷ codes "[2m"

abbrev pub reset : Bytes
reset = 27 ∷ codes "[0m"

-- `fmt[strlen(fmt) - 1] == '\n'`
unfoldable pub ends_line : Bytes → Bool
ends_line [] = false
ends_line (c ∷ []) = c == b'\n'
ends_line (c ∷ k ∷ s) = ends_line (k ∷ s)

module _ (env : Env) where
  unfoldable pub ask_no_color : Option Bool → Sinks → Sinks
  ask_no_color (some known) s = s
  ask_no_color none s = record s {
    no_color = some (env.no_color s.asked);
    asked = getenv_no_color ∷ s.asked;
  }

  unfoldable pub ask_stdout : Option Bool → Sinks → Sinks
  ask_stdout (some known) s = s
  ask_stdout none s = record s {
    stdout_is_tty = some (env.is_tty s.asked stdout);
    asked = isatty stdout ∷ s.asked;
  }

  unfoldable pub ask_stderr : Option Bool → Sinks → Sinks
  ask_stderr (some known) s = s
  ask_stderr none s = record s {
    stderr_is_tty = some (env.is_tty s.asked stderr);
    asked = isatty stderr ∷ s.asked;
  }

  unfoldable pub ask_tty : Stream → Sinks → Sinks
  ask_tty stdout s = ask_stdout s.stdout_is_tty s
  ask_tty stderr s = ask_stderr s.stderr_is_tty s
  ask_tty other s = s

  -- "Find out (and cache) if we should use color".
  unfoldable pub look : Stream → Sinks → Sinks
  look f s =
      let s' = ask_no_color s.no_color s in if not (flag s'.no_color) then ask_tty f s' else s'

abbrev pub cached_tty : Stream → Sinks → Option Bool
cached_tty stdout s = s.stdout_is_tty
cached_tty stderr s = s.stderr_is_tty
cached_tty other s = some false

-- `is_tty`, once the caches are filled.
unfoldable pub is_colored : Stream → Sinks → Bool
is_colored f s = not (flag s.no_color) && flag (cached_tty f s)

-- The colour, the text and the reset, and a flush behind a line.
unfoldable pub put : Stream → Bool → Bytes → Bytes → Bytes → List Output → List Output
put f is_tty color fmt text w =
    let w' =
      fputs f (if is_tty then reset else [])
      ∷ vfprintf f text
      ∷ fputs f (if is_tty then color else [])
      ∷ w in
    if ends_line fmt then fflush f ∷ w' else w'

unfoldable pub earlyoom_syslog_init : Sinks → Sinks
earlyoom_syslog_init s =
    if not s.use_syslog
    then record s { use_syslog = true; written = atexit_closelog ∷ openlog ∷ s.written }
    else s

module _ {V : Type 0} (env : Env) (vformat : Bytes → V → Bytes) where
  unfoldable pub color_log : Stream → Bytes → Bytes → V → Sinks → Sinks
  color_log f color fmt vl s =
      let s' = look env f s in
      record s' { written = put f (is_colored f s') color fmt (vformat fmt vl) s'.written }

  unfoldable pub logger : ℕ → Stream → Bytes → Bytes → V → Sinks → Sinks
  logger priority f color fmt vl s =
      if s.use_syslog
      then record s { written = vsyslog priority (vformat fmt vl) ∷ s.written }
      else color_log f color fmt vl s

  -- Up to `exit`.
  unfoldable pub fatal_message : Bytes → V → Sinks → Sinks
  fatal_message fmt vl s =
      logger log_err stderr red (take (msg_len - 1) (codes "fatal: " ++ fmt)) vl s

  unfoldable pub warn : Bytes → V → Sinks → Sinks
  warn fmt vl s = logger log_warning stderr yellow fmt vl s

  unfoldable pub debug : Bool → Bytes → V → Sinks → Sinks
  debug enable_debug fmt vl s =
      if not enable_debug then s else logger log_debug stdout gray fmt vl s

  unfoldable pub info : Bytes → V → Sinks → Sinks
  info fmt vl s = logger log_info stdout [] fmt vl s

-- One use of msg.c by the program; `debug` with the value of `enable_debug`.
pub data Use (V : Type 0) : Type 0 where
  fatal_of warn_of info_of : Bytes → V → Use V
  debug_of : Bool → Bytes → V → Use V
  syslog_init : Use V

module _ {V : Type 0} (env : Env) (vformat : Bytes → V → Bytes) where
  unfoldable pub use_one : Use V → Sinks → Sinks
  use_one (fatal_of fmt vl) s = fatal_message env vformat fmt vl s
  use_one (warn_of fmt vl) s = warn env vformat fmt vl s
  use_one (info_of fmt vl) s = info env vformat fmt vl s
  use_one (debug_of enable_debug fmt vl) s = debug env vformat enable_debug fmt vl s
  use_one syslog_init s = earlyoom_syslog_init s

  unfoldable pub use_all : List (Use V) → Sinks → Sinks
  use_all [] s = s
  use_all (u ∷ uses) s = use_all uses (use_one u s)
