-- ===== src/Main/Harmless.antt =====
-- main.c: the calls of `earlyoom --dryrun`.
use earlyoom.Prelude.{ℕ, refl, Bool, true, Option, none, some, List, [], ◌∷◌, inr, ◌∈◌}
use earlyoom.Prelude.Int.{pos}
use earlyoom.Prelude.Text.{Bytes}
use earlyoom.Double.{Double}
use earlyoom.Machine.{Os, modify}
use earlyoom.Machine.Calls.{
  Calls, Calls-weaken, Calls-modify, Calls-bind, Calls-bind_known, Calls-branch, Calls-pure,
  Calls-call, Calls-say, Calls-fatal, calls_rules,
}
use earlyoom.Machine.Quiet.{IsReading-IsAside}
use earlyoom.MemInfo.{MemInfo}
use earlyoom.MemInfo.Reads.{parse_meminfo-Calls}
use earlyoom.Options.{Limits, Outcome, ok, fatal_status}
use earlyoom.Kill.Dryrun.{IsHarmless, IsAside-IsHarmless}
use earlyoom.Startup.Harmless.{
  raise_priority-Calls, lock_memory-Calls, startup_selftests-IsHarmless,
}
use earlyoom.Poll.Safe.{poll_rounds-IsHarmless}
use earlyoom.Main.Dry.{take_options-Dry, settle-Dry, startup_selftests-Dry}
use earlyoom.Main.{
  compiled, Opt, limit, debug, dryrun, Clib, Settings, set_limits, take_option, take_options,
  compile, settle, main,
}

module _ {F : Type 0} (os : Os) (lib : Clib F) where
  compiled-Calls : (test : Option (Bytes → Bool)) → Calls IsHarmless (compiled os lib test)
  unfolding compiled
  compiled-Calls none = Calls-fatal os 6 tt
  compiled-Calls (some test) = search (calls_rules) depth 14

  compile-Calls : (text : Option Bytes) → Calls IsHarmless (compile os lib text)
  unfolding compile
  compile-Calls none = Calls-pure none
  compile-Calls (some text) = compiled-Calls (lib.regcomp text)

set_debug : Calls IsHarmless (modify (λ m. record m { enable_debug = true }))
set_debug = Calls-modify _ (λ m. refl)

module _ {W F : Type 0} ⦃d : Double W⦄ (os : Os) (lib : Clib F) where
  set_limits-Calls :
      (s : Settings W) (o : Outcome (Limits W)) → Calls IsHarmless (set_limits os lib s o)
  unfolding set_limits
  set_limits-Calls s (ok l) = Calls-pure _
  set_limits-Calls s (fatal_status code) = Calls-fatal os code tt

  take_option-Calls :
      (m : MemInfo W) (o : Opt) (s : Settings W) → Calls IsHarmless (take_option os lib m o s)
  unfolding take_option
  take_option-Calls m (limit o) s = search (calls_rules, set_limits-Calls) depth 14
  take_option-Calls m debug s = search (calls_rules, set_debug) depth 14
  take_option-Calls m _ s = search (calls_rules) depth 14

  take_options-Calls :
      (m : MemInfo W) (options : List Opt) (s : Settings W)
      → Calls IsHarmless (take_options os lib m options s)
  unfolding take_options
  take_options-Calls m [] s = Calls-pure s
  take_options-Calls m (o ∷ options) s =
      Calls-bind (take_option-Calls m o s) λ s'. take_options-Calls m options s'

  settle-Calls : (m : MemInfo W) (s : Settings W) → Calls IsHarmless (settle os lib m s)
  unfolding settle
  settle-Calls m s = search (calls_rules, compile-Calls os lib, raise_priority-Calls) depth 20

-- With --dryrun among the options, the program kills no process, reaps no memory and does not
-- trigger the kernel's OOM killer, from its start through any number of rounds and whatever the
-- kernel answers.
pub main-IsHarmless :
    (W : Type 0) {F : Type 0} ⦃d : Double W⦄ (os : Os) (lib : Clib F) (options : List Opt)
    (extra : Bool) (interrupts rounds : ℕ)
    → dryrun ∈ options
    → Calls IsHarmless (main W os lib options extra interrupts rounds)
unfolding main
main-IsHarmless W os lib options extra interrupts rounds h = Calls-bind (Calls-say os _ tt) λ _.
    Calls-bind (Calls-call os _ tt) λ dir.
      Calls-bind (Calls-branch (λ _. Calls-fatal os 4 tt) λ _. Calls-pure tt) λ _.
        Calls-bind
          (Calls-weaken (λ c k. IsAside-IsHarmless c (IsReading-IsAside c k))
            (parse_meminfo-Calls os))
          λ m.
            Calls-bind_known (take_options-Dry os lib m options _ (inr h))
              (take_options-Calls os lib m options _)
              λ s dry. Calls-bind (Calls-branch (λ _. Calls-fatal os 13 tt) λ _. Calls-pure tt) λ _.
                Calls-bind_known (settle-Dry os lib m s dry) (settle-Calls os lib m s) λ args dry'.
                  Calls-bind_known (startup_selftests-Dry os args dry')
                    (startup_selftests-IsHarmless os args)
                    λ tested dry''. Calls-bind (Calls-say os _ tt) λ _.
                      Calls-bind (search (calls_rules) depth 14) λ _.
                        Calls-bind (lock_memory-Calls os)
                          λ _. poll_rounds-IsHarmless os tested interrupts rounds (pos 0) dry''
