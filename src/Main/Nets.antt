-- ===== src/Main/Nets.antt =====
-- main.c: the files and descriptors of the program.
use earlyoom.Prelude.{ℕ, refl, Bool, true, Option, none, some, List, [], ◌∷◌}
use earlyoom.Prelude.Text.{Bytes}
use earlyoom.Prelude.Int.{ℤ}
use earlyoom.Double.{Double}
use earlyoom.Args.{Args}
use earlyoom.Machine.{Os, modify}
use earlyoom.Machine.Nets.{
  Weight, Nets-exit, Stays, Stays-pure, Stays-modify, Stays-fatal, Stays-bind, stays_rules,
}
use earlyoom.MemInfo.{MemInfo}
use earlyoom.MemInfo.Nets.{parse_meminfo-Nets}
use earlyoom.Options.{Limits, Outcome, ok, fatal_status}
use earlyoom.Kill.Nets.{IsPlain}
use earlyoom.Startup.Nets.{raise_priority-Nets, lock_memory-Nets, startup_selftests-Nets}
use earlyoom.Startup.{startup_selftests}
use earlyoom.Poll.{poll_rounds}
use earlyoom.Poll.Nets.{poll_rounds-Nets}
use earlyoom.Main.{
  compiled, Opt, limit, debug, version, Clib, Settings, set_limits, take_option, take_options,
  compile, settle, main,
}

set_debug : {w : Weight} {n : ℕ} → Stays w n (modify (λ m. record m { enable_debug = true }))
set_debug = Stays-modify _ (λ m. refl)

module _ {w : Weight} {n : ℕ} {F : Type 0} (os : Os) (lib : Clib F) where
  compiled-Nets : (test : Option (Bytes → Bool)) → Stays w n (compiled os lib test)
  unfolding compiled
  compiled-Nets none = Stays-fatal os 6
  compiled-Nets (some test) = search (stays_rules) depth 14

  compile-Nets : (text : Option Bytes) → Stays w n (compile os lib text)
  unfolding compile
  compile-Nets none = Stays-pure none
  compile-Nets (some text) = compiled-Nets (lib.regcomp text)

module _ {w : Weight} {n : ℕ} {W F : Type 0} ⦃d : Double W⦄ (os : Os) (lib : Clib F) where
  set_limits-Nets : (s : Settings W) (o : Outcome (Limits W)) → Stays w n (set_limits os lib s o)
  unfolding set_limits
  set_limits-Nets s (ok l) = Stays-pure _
  set_limits-Nets s (fatal_status code) = Stays-fatal os code

  take_option-Nets :
      (m : MemInfo W) (o : Opt) (s : Settings W) → Stays w n (take_option os lib m o s)
  unfolding take_option
  take_option-Nets m (limit o) s = search (stays_rules, set_limits-Nets) depth 14
  take_option-Nets m debug s = search (stays_rules, set_debug) depth 14
  take_option-Nets m version s = Nets-exit 0
  take_option-Nets m _ s = search (stays_rules) depth 14

  take_options-Nets :
      (m : MemInfo W) (options : List Opt) (s : Settings W)
      → Stays w n (take_options os lib m options s)
  unfolding take_options
  take_options-Nets m [] s = Stays-pure s
  take_options-Nets m (o ∷ options) s =
      Stays-bind (take_option-Nets m o s) λ s'. take_options-Nets m options s'

  settle-Nets : (m : MemInfo W) (s : Settings W) → Stays w n (settle os lib m s)
  unfolding settle
  settle-Nets m s = search (stays_rules, compile-Nets os lib, raise_priority-Nets) depth 20

module _ {w : Weight} {n : ℕ} {W : Type 0} ⦃d : Double W⦄ (os : Os) (plain : IsPlain os) where
  tests-Nets : (args : Args W) → Stays w n (startup_selftests os args)
  tests-Nets args = startup_selftests-Nets os args plain

  rounds-Nets :
      (args : Args W) (interrupts rounds : ℕ) (countdown_ms : ℤ)
      → Stays w n (poll_rounds os args interrupts rounds countdown_ms)
  rounds-Nets args = poll_rounds-Nets os args plain

-- Where `pidfd_open` gives a descriptor or -1, the program closes what it opens, on every path from
-- its start through any number of rounds of its main loop: whatever each file and each descriptor
-- counts, what is opened and what is closed counts the same. /proc/meminfo, which stays open on
-- purpose, and the directory stream are not counted.
pub main-Nets :
    (W : Type 0) {F : Type 0} ⦃d : Double W⦄ (os : Os)
    → IsPlain os
    → (w : Weight) (n : ℕ) (lib : Clib F) (options : List Opt) (extra : Bool)
      (interrupts rounds : ℕ)
    → Stays w n (main W os lib options extra interrupts rounds)
unfolding main
main-Nets W os plain w n lib options extra interrupts rounds =
    search
      (
        stays_rules,
        parse_meminfo-Nets,
        take_options-Nets os lib,
        settle-Nets os lib,
        tests-Nets os plain,
        lock_memory-Nets,
        rounds-Nets os plain,
      )
      depth 30
