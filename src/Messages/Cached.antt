-- ===== src/Messages/Cached.antt =====
-- msg.c: `color_log` with its caches, and without them.
use earlyoom.Prelude.{
  ℕ, ◌-◌, ◌≡◌, refl, ap, sym, ◌∙◌, Bool, true, false, Option, List, [], ◌∷◌, ◌++◌, take,
  if◌then◌else◌,
}
use earlyoom.Prelude.Text.{Bytes, codes}
use earlyoom.TermKill.{msg_len}
use earlyoom.Messages.Decided.{
  Fixed, sinks, Fixed-is_colored, Fixed-same, look-decides, look-keeps, look_silent,
}
use earlyoom.Messages.{
  Stream, stdout, stderr, Query, Output, openlog, atexit_closelog, vsyslog, Env, Sinks, log_err,
  log_warning, log_info, log_debug, red, yellow, gray, look, is_colored, put, earlyoom_syslog_init,
  color_log, logger, fatal_message, warn, debug, info, Use, fatal_of, warn_of, info_of, debug_of,
  syslog_init, use_one, use_all,
}

-- Whether the system log is open, behind a use.
abbrev opens : {V : Type 0} → Use V → Bool → Bool
opens syslog_init u = true
opens _ u = u

-- Without caches: where the colours go is given, and whether the system log is open.
module _ {V : Type 0} (vformat : Bytes → V → Bytes) (colored : Stream → Bool) where
  abbrev plain_log : Bool → ℕ → Stream → Bytes → Bytes → V → List Output → List Output
  plain_log use_syslog priority f color fmt vl w =
      if use_syslog
      then vsyslog priority (vformat fmt vl) ∷ w
      else put f (colored f) color fmt (vformat fmt vl) w

  abbrev plain_one : Use V → Bool → List Output → List Output
  plain_one (fatal_of fmt vl) u w =
      plain_log u log_err stderr red (take (msg_len - 1) (codes "fatal: " ++ fmt)) vl w
  plain_one (warn_of fmt vl) u w = plain_log u log_warning stderr yellow fmt vl w
  plain_one (info_of fmt vl) u w = plain_log u log_info stdout [] fmt vl w
  plain_one (debug_of true fmt vl) u w = plain_log u log_debug stdout gray fmt vl w
  plain_one (debug_of false fmt vl) u w = w
  plain_one syslog_init true w = w
  plain_one syslog_init false w = atexit_closelog ∷ openlog ∷ w

  abbrev pub plain : List (Use V) → Bool → List Output → List Output
  plain [] u w = w
  plain (x ∷ uses) u w = plain uses (opens x u) (plain_one x u w)

-- From `s` to `s'` with the system log `u` and the output `w`: what is decided stays, and where the
-- colours are as decided in the end, the output is `w`.
record Plainly (c : Stream → Bool) (s s' : Sinks) (u : Bool) (w : List Output) : Type 0 where
  keeps : (f : Stream) (b : Bool) → Fixed f b s → Fixed f b s'
  opened : s'.use_syslog ≡ u
  output : ((f : Stream) (b : Bool) → Fixed f b s' → c f ≡ b) → w ≡ s'.written

module _ {V : Type 0} (env : Env) (vformat : Bytes → V → Bytes) where
  module _ (p : ℕ) (g : Stream) (color fmt : Bytes) (vl : V) where
    color_log-keeps :
        (f : Stream) (b : Bool) (s : Sinks)
        → Fixed f b s
        → Fixed f b (color_log env vformat g color fmt vl s)
    unfolding color_log
    color_log-keeps f b s h =
        Fixed-same f b (look env g s) (look env g s).use_syslog _
          (look-keeps env f g _ b _ _ _ _ _ h)

    logger-Plainly :
        (c : Stream → Bool) (u : Bool) (n o e : Option Bool) (q : List Query) (w : List Output)
        → Plainly c
            (sinks u n o e q w)
            (logger env vformat p g color fmt vl (sinks u n o e q w))
            u
            (plain_log vformat c u p g color fmt vl w)
    unfolding logger color_log
    logger-Plainly c true n o e q w = record {
      keeps = λ f b h. Fixed-same f b (sinks true n o e q w) true _ h;
      opened = refl;
      output = λ k. refl;
    }
    logger-Plainly c false n o e q w =
        let s : Sinks = look env g (sinks false n o e q w) in
        let silent = look_silent env g false n o e q w in
        record {
          keeps = λ f b h. color_log-keeps f b (sinks false n o e q w) h;
          opened = silent.0;
          output = λ k.
              ap (λ b. put g b color fmt (vformat fmt vl) w)
                (k g _ (Fixed-same g _ s s.use_syslog _ (look-decides env g false n o e q w)))
              ∙ ap (put g _ color fmt (vformat fmt vl)) (sym silent.1);
        }

  init-Plainly :
      (c : Stream → Bool) (u : Bool) (n o e : Option Bool) (q : List Query) (w : List Output)
      → Plainly c
          (sinks u n o e q w)
          (earlyoom_syslog_init (sinks u n o e q w))
          true
          (plain_one vformat c syslog_init u w)
  unfolding earlyoom_syslog_init
  init-Plainly c true n o e q w = record { keeps = λ f b h. h; opened = refl; output = λ k. refl }
  init-Plainly c false n o e q w = record {
    keeps = λ f b h. Fixed-same f b (sinks false n o e q w) true _ h;
    opened = refl;
    output = λ k. refl;
  }

  use_one-Plainly :
      (c : Stream → Bool) (x : Use V) (s : Sinks)
      → Plainly c s
          (use_one env vformat x s)
          (opens x s.use_syslog)
          (plain_one vformat c x s.use_syslog s.written)
  unfolding use_one fatal_message warn info debug
  use_one-Plainly c (fatal_of fmt vl) s = logger-Plainly _ _ _ _ vl c s.use_syslog _ _ _ _ _
  use_one-Plainly c (warn_of fmt vl) s = logger-Plainly _ _ _ fmt vl c s.use_syslog _ _ _ _ _
  use_one-Plainly c (info_of fmt vl) s = logger-Plainly _ _ _ fmt vl c s.use_syslog _ _ _ _ _
  use_one-Plainly c (debug_of true fmt vl) s = logger-Plainly _ _ _ fmt vl c s.use_syslog _ _ _ _ _
  use_one-Plainly c (debug_of false fmt vl) s = record {
    keeps = λ f b h. h;
    opened = refl;
    output = λ k. refl;
  }
  use_one-Plainly c syslog_init s = init-Plainly c s.use_syslog _ _ _ _ _

  use_all-Plainly :
      (c : Stream → Bool) (uses : List (Use V)) (s : Sinks)
      → ((f : Stream) (b : Bool) → Fixed f b s → Fixed f b (use_all env vformat uses s))
        × (((f : Stream) (b : Bool) → Fixed f b (use_all env vformat uses s) → c f ≡ b)
            → plain vformat c uses s.use_syslog s.written ≡ (use_all env vformat uses s).written)
  unfolding use_all
  use_all-Plainly c [] s = (λ f b h. h, λ k. refl)
  use_all-Plainly c (x ∷ uses) s =
      let one : Plainly c s (use_one env vformat x s) _ _ = use_one-Plainly c x s in
      let rest = use_all-Plainly c uses (use_one env vformat x s) in
      (
        λ f b h. rest.0 f b (one.keeps f b h),
        λ k.
            ap (plain vformat c uses _) (one.output λ f b h. k f b (rest.0 f b h))
            ∙ ap (λ u. plain vformat c uses u (use_one env vformat x s).written) (sym one.opened)
            ∙ rest.1 k,
      )

  -- Whatever the environment answers, and however the answers change, the messages come out as
  -- they do without caches, where each stream has one colour setting for all messages: the one
  -- that the caches hold in the end. The setting does not matter once the system log is open.
  pub use_all-plain :
      (uses : List (Use V)) (s : Sinks)
      → let final = use_all env vformat uses s in
        plain vformat (λ f. is_colored f final) uses s.use_syslog s.written ≡ final.written
  use_all-plain uses s = (use_all-Plainly _ uses s).1 λ f b h. Fixed-is_colored f b _ h
