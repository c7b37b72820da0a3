-- ===== src/Messages/Decided.antt =====
-- What a look of `color_log` at the environment decides, and that it stays decided.
use earlyoom.Prelude.{
  ◌≡◌, refl, ap, ◌∙◌, Bool, true, false, not, ◌&&◌, Option, none, some, List, if◌then◌else◌, arith,
}
use earlyoom.Messages.{
  Stream, stdout, stderr, other, Query, Output, Env, Sinks, flag, ask_no_color, ask_stdout,
  ask_stderr, ask_tty, look, cached_tty, is_colored,
}

-- The caches decide about a stream, and say `b`.
pub data Fixed (f : Stream) (b : Bool) (s : Sinks) : Type 0 where
  by_env : s.no_color ≡ some true → b ≡ false → Fixed f b s
  by_tty : s.no_color ≡ some false → cached_tty f s ≡ some b → Fixed f b s

pub Fixed-is_colored : (f : Stream) (b : Bool) (s : Sinks) → Fixed f b s → is_colored f s ≡ b
unfolding is_colored
Fixed-is_colored f b s (by_env e h) = rw (e, h) refl
Fixed-is_colored f b s (by_tty e h) = ap (λ n. not (flag n) && flag (cached_tty f s)) e ∙ ap flag h

abbrev pub sinks : Bool → Option Bool → Option Bool → Option Bool → List Query → List Output → Sinks
sinks u n o e asked written = record {
  use_syslog = u;
  no_color = n;
  stdout_is_tty = o;
  stderr_is_tty = e;
  asked = asked;
  written = written;
}

module _ (env : Env) where
  -- A look decides.
  tty-decides :
      (f : Stream) (u : Bool) (o e : Option Bool) (q : List Query) (w : List Output)
      → let s = ask_tty env f (sinks u (some false) o e q w) in Fixed f (is_colored f s) s
  unfolding ask_tty ask_stdout ask_stderr is_colored
  tty-decides stdout u none e q w = by_tty refl refl
  tty-decides stdout u (some b) e q w = by_tty refl refl
  tty-decides stderr u o none q w = by_tty refl refl
  tty-decides stderr u o (some b) q w = by_tty refl refl
  tty-decides other u o e q w = by_tty refl refl

  known-decides :
      (f : Stream) (u b : Bool) (o e : Option Bool) (q : List Query) (w : List Output)
      → let s = sinks u (some b) o e q w in
        let s' = if not b then ask_tty env f s else s in Fixed f (is_colored f s') s'
  unfolding is_colored
  known-decides f u true o e q w = by_env refl refl
  known-decides f u false o e q w = tty-decides f u o e q w

  pub look-decides :
      (f : Stream) (u : Bool) (n o e : Option Bool) (q : List Query) (w : List Output)
      → let s = look env f (sinks u n o e q w) in Fixed f (is_colored f s) s
  unfolding look ask_no_color
  look-decides f u none o e q w = known-decides f u (env.no_color q) o e _ w
  look-decides f u (some b) o e q w = known-decides f u b o e q w

  -- A look leaves what is decided.
  tty-keeps :
      (f g : Stream) (u b : Bool) (o e : Option Bool) (q : List Query) (w : List Output)
      → let s = sinks u (some false) o e q w in
        cached_tty f s ≡ some b → cached_tty f (ask_tty env g s) ≡ some b
  unfolding ask_tty ask_stdout ask_stderr
  tty-keeps stdout stdout u b none e q w h = ground arith
  tty-keeps stderr stdout u b none e q w h = h
  tty-keeps other stdout u b none e q w h = h
  tty-keeps f stdout u b (some o) e q w h = h
  tty-keeps stdout stderr u b o none q w h = h
  tty-keeps stderr stderr u b o none q w h = ground arith
  tty-keeps other stderr u b o none q w h = h
  tty-keeps f stderr u b o (some e) q w h = h
  tty-keeps f other u b o e q w h = h

  tty-no_color :
      (g : Stream) (u : Bool) (n o e : Option Bool) (q : List Query) (w : List Output)
      → (ask_tty env g (sinks u n o e q w)).no_color ≡ n
  unfolding ask_tty ask_stdout ask_stderr
  tty-no_color stdout u n none e q w = refl
  tty-no_color stdout u n (some o) e q w = refl
  tty-no_color stderr u n o none q w = refl
  tty-no_color stderr u n o (some e) q w = refl
  tty-no_color other u n o e q w = refl

  pub look-keeps :
      (f g : Stream) (u b : Bool) (n o e : Option Bool) (q : List Query) (w : List Output)
      → Fixed f b (sinks u n o e q w)
      → Fixed f b (look env g (sinks u n o e q w))
  unfolding look ask_no_color
  look-keeps f g u b none o e q w (by_env x y) = ground arith
  look-keeps f g u b none o e q w (by_tty x y) = ground arith
  look-keeps f g u b (some true) o e q w h = h
  look-keeps f g u b (some false) o e q w (by_env x y) = ground arith
  look-keeps f g u b (some false) o e q w (by_tty x y) =
      by_tty (tty-no_color g u _ o e q w) (tty-keeps f g u b o e q w y)

-- The caches do not depend on what is written.
cached_tty-same :
    (f : Stream) (s : Sinks) (u : Bool) (w : List Output)
    → cached_tty f (record s { use_syslog = u; written = w }) ≡ cached_tty f s
cached_tty-same stdout s u w = refl
cached_tty-same stderr s u w = refl
cached_tty-same other s u w = refl

pub Fixed-same :
    (f : Stream) (b : Bool) (s : Sinks) (u : Bool) (w : List Output)
    → Fixed f b s
    → Fixed f b (record s { use_syslog = u; written = w })
Fixed-same f b s u w (by_env e h) = by_env e h
Fixed-same f b s u w (by_tty e h) = by_tty e (cached_tty-same f s u w ∙ h)

-- A look writes nothing, and leaves the system log alone.
module _ (env : Env) where
  tty_silent :
      (g : Stream) (u : Bool) (n o e : Option Bool) (q : List Query) (w : List Output)
      → let s = ask_tty env g (sinks u n o e q w) in (s.use_syslog ≡ u) × (s.written ≡ w)
  unfolding ask_tty ask_stdout ask_stderr
  tty_silent stdout u n none e q w = (refl, refl)
  tty_silent stdout u n (some o) e q w = (refl, refl)
  tty_silent stderr u n o none q w = (refl, refl)
  tty_silent stderr u n o (some e) q w = (refl, refl)
  tty_silent other u n o e q w = (refl, refl)

  known_silent :
      (g : Stream) (u b : Bool) (o e : Option Bool) (q : List Query) (w : List Output)
      → let s = sinks u (some b) o e q w in
        let s' = if not b then ask_tty env g s else s in (s'.use_syslog ≡ u) × (s'.written ≡ w)
  known_silent g u true o e q w = (refl, refl)
  known_silent g u false o e q w = tty_silent g u _ o e q w

  pub look_silent :
      (g : Stream) (u : Bool) (n o e : Option Bool) (q : List Query) (w : List Output)
      → let s = look env g (sinks u n o e q w) in (s.use_syslog ≡ u) × (s.written ≡ w)
  unfolding look ask_no_color
  look_silent g u none o e q w = known_silent g u _ o e _ w
  look_silent g u (some b) o e q w = known_silent g u b o e q w
