-- ===== src/Messages/Tests.antt =====
-- The laws of the messages, for a terminal that is closed in the middle.
use earlyoom.Prelude.{◌≡◌, refl, Bool, true, false, List, [], ◌∷◌}
use earlyoom.Prelude.Text.{Bytes, codes}
use earlyoom.Messages.{
  Stream, stdout, stderr, Query, fputs, vfprintf, fflush, vsyslog, openlog, atexit_closelog, Env,
  initial_sinks, yellow, reset, is_colored, ends_line, put, look, ask_no_color, ask_tty, ask_stdout,
  ask_stderr, earlyoom_syslog_init, color_log, logger, fatal_message, warn, info, debug, Use,
  fatal_of, warn_of, info_of, debug_of, syslog_init, use_one, use_all,
}
use earlyoom.Messages.Cached.{plain, use_all-plain}

-- Only the first two questions find a terminal.
abbrev fading : Env
fading = record { no_color = λ asked. false; is_tty = is_early }
  where
    is_early : List Query → Stream → Bool
    is_early [] f = true
    is_early (q ∷ []) f = true
    is_early _ f = false

abbrev verbatim : Bytes → Bytes → Bytes
verbatim fmt vl = vl

abbrev session : List (Use Bytes)
session =
    warn_of (codes "%s\n") (codes "a\n")
    ∷ info_of (codes "%s") (codes "b")
    ∷ debug_of false (codes "%s\n") (codes "c\n")
    ∷ warn_of (codes "%s\n") (codes "d\n")
    ∷ syslog_init
    ∷ fatal_of (codes "%s") (codes "e")
    ∷ []

writes :
    (use_all fading verbatim session initial_sinks).written
    ≡ vsyslog 3 (codes "e")
      ∷ atexit_closelog
      ∷ openlog
      ∷ fflush stderr
      ∷ fputs stderr reset
      ∷ vfprintf stderr (codes "d\n")
      ∷ fputs stderr yellow
      ∷ fputs stdout []
      ∷ vfprintf stdout (codes "b")
      ∷ fputs stdout []
      ∷ fflush stderr
      ∷ fputs stderr reset
      ∷ vfprintf stderr (codes "a\n")
      ∷ fputs stderr yellow
      ∷ []
unfolding use_all use_one fatal_message warn info debug logger color_log look ask_no_color ask_tty
    ask_stdout ask_stderr put is_colored ends_line earlyoom_syslog_init
writes = refl

use_all-plain_example :
    plain verbatim
      (λ f. is_colored f (use_all fading verbatim session initial_sinks))
      session
      false
      []
    ≡ (use_all fading verbatim session initial_sinks).written
use_all-plain_example = use_all-plain fading verbatim session initial_sinks
