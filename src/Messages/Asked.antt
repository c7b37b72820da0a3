-- ===== src/Messages/Asked.antt =====
-- How often `color_log` asks the environment.
use earlyoom.Prelude.{
  ℕ, ◌+◌, ◌≤◌, ◌≡◌, refl, Bool, true, false, not, Option, none, some, List, [], ◌∷◌, length,
  if◌then◌else◌, arith,
}
use earlyoom.Prelude.Text.{Bytes}
use earlyoom.Messages.{
  Stream, stdout, stderr, other, Query, Output, Env, Sinks, initial_sinks, ask_no_color, ask_stdout,
  ask_stderr, ask_tty, look, earlyoom_syslog_init, color_log, logger, fatal_message, warn, debug,
  info, Use, fatal_of, warn_of, info_of, debug_of, syslog_init, use_one, use_all,
}
use earlyoom.Messages.Decided.{sinks}

abbrev filled : Option Bool → ℕ
filled none = 0
filled (some b) = 1

-- As many questions as there are filled caches.
abbrev IsCounted : Sinks → Type 0
IsCounted s = length s.asked ≡ filled s.no_color + (filled s.stdout_is_tty + filled s.stderr_is_tty)

module _ (env : Env) where
  tty-IsCounted :
      (g : Stream) (u : Bool) (n o e : Option Bool) (q : List Query) (w : List Output)
      → IsCounted (sinks u n o e q w)
      → IsCounted (ask_tty env g (sinks u n o e q w))
  unfolding ask_tty ask_stdout ask_stderr
  tty-IsCounted stdout u n none e q w h = omega (arith, h)
  tty-IsCounted stdout u n (some b) e q w h = h
  tty-IsCounted stderr u n o none q w h = omega (arith, h)
  tty-IsCounted stderr u n o (some b) q w h = h
  tty-IsCounted other u n o e q w h = h

  known-IsCounted :
      (g : Stream) (u b : Bool) (o e : Option Bool) (q : List Query) (w : List Output)
      → let s = sinks u (some b) o e q w in
        IsCounted s → IsCounted (if not b then ask_tty env g s else s)
  known-IsCounted g u true o e q w h = h
  known-IsCounted g u false o e q w h = tty-IsCounted g u _ o e q w h

  look-IsCounted :
      (g : Stream) (u : Bool) (n o e : Option Bool) (q : List Query) (w : List Output)
      → IsCounted (sinks u n o e q w)
      → IsCounted (look env g (sinks u n o e q w))
  unfolding look ask_no_color
  look-IsCounted g u none o e q w h = known-IsCounted g u _ o e _ w (omega (arith, h))
  look-IsCounted g u (some b) o e q w h = known-IsCounted g u b o e q w h

module _ {V : Type 0} (env : Env) (vformat : Bytes → V → Bytes) where
  logger-IsCounted :
      (p : ℕ) (g : Stream) (color fmt : Bytes) (vl : V) (u : Bool) (n o e : Option Bool)
      (q : List Query) (w : List Output)
      → IsCounted (sinks u n o e q w)
      → IsCounted (logger env vformat p g color fmt vl (sinks u n o e q w))
  unfolding logger color_log
  logger-IsCounted p g color fmt vl true n o e q w h = h
  logger-IsCounted p g color fmt vl false n o e q w h = look-IsCounted env g false n o e q w h

  init-IsCounted :
      (u : Bool) (n o e : Option Bool) (q : List Query) (w : List Output)
      → IsCounted (sinks u n o e q w)
      → IsCounted (earlyoom_syslog_init (sinks u n o e q w))
  unfolding earlyoom_syslog_init
  init-IsCounted true n o e q w h = h
  init-IsCounted false n o e q w h = h

  use_one-IsCounted : (x : Use V) (s : Sinks) → IsCounted s → IsCounted (use_one env vformat x s)
  unfolding use_one fatal_message warn info debug
  use_one-IsCounted (fatal_of fmt vl) s h = logger-IsCounted _ _ _ _ vl s.use_syslog _ _ _ _ _ h
  use_one-IsCounted (warn_of fmt vl) s h = logger-IsCounted _ _ _ fmt vl s.use_syslog _ _ _ _ _ h
  use_one-IsCounted (info_of fmt vl) s h = logger-IsCounted _ _ _ fmt vl s.use_syslog _ _ _ _ _ h
  use_one-IsCounted (debug_of true fmt vl) s h =
      logger-IsCounted _ _ _ fmt vl s.use_syslog _ _ _ _ _ h
  use_one-IsCounted (debug_of false fmt vl) s h = h
  use_one-IsCounted syslog_init s h = init-IsCounted s.use_syslog _ _ _ _ _ h

  use_all-IsCounted :
      (uses : List (Use V)) (s : Sinks) → IsCounted s → IsCounted (use_all env vformat uses s)
  unfolding use_all
  use_all-IsCounted [] s h = h
  use_all-IsCounted (x ∷ uses) s h = use_all-IsCounted uses _ (use_one-IsCounted x s h)

  filled_most : (n : Option Bool) → filled n ≤ 1
  filled_most none = omega arith
  filled_most (some b) = omega arith

  -- From the start of the program, `getenv` and `isatty` are called at most three times together,
  -- however many messages there are.
  pub use_all-asked :
      (uses : List (Use V)) → length (use_all env vformat uses initial_sinks).asked ≤ 3
  use_all-asked uses =
      let s = use_all env vformat uses initial_sinks in
      let counted : IsCounted s = use_all-IsCounted uses initial_sinks refl in
      omega (
        arith,
        counted,
        filled_most s.no_color,
        filled_most s.stdout_is_tty,
        filled_most s.stderr_is_tty,
      )
