-- ===== src/Main/Exits.antt =====
-- The statuses with which the program ends.
use earlyoom.Prelude.{ℕ, Bool, refl, Option, none, some, List, [], ◌∷◌}
use earlyoom.Prelude.Text.{Bytes}
use earlyoom.Double.{Double}
use earlyoom.Machine.{Os, exit, fatal}
use earlyoom.Machine.Exits.{
  Exits, Exits-pure, Exits-exit, Exits-fatal, Exits-bind, IsStatus, exits_rules,
}
use earlyoom.MemInfo.{MemInfo}
use earlyoom.MemInfo.Exits.{parse_meminfo-Exits}
use earlyoom.Options.{
  LimitOption, mem_percent, swap_percent, mem_size, swap_size, Limits, checked, Outcome, ok,
  fatal_status, take_limit,
}
use earlyoom.Startup.Exits.{raise_priority-Exits, lock_memory-Exits, startup_selftests-Exits}
use earlyoom.Poll.Exits.{poll_rounds-Exits}
use earlyoom.Main.{
  compiled, Opt, limit, version, help, report_interval, unknown, Clib, Settings, set_limits,
  take_option, take_options, compile, settle, main,
}

abbrev IsStatusOutcome : {A : Type 0} → Outcome A → Type 0
IsStatusOutcome (ok a) = Unit
IsStatusOutcome (fatal_status code) = IsStatus code

checked-IsStatus :
    {A E : Type 0} (code : ℕ) (e : Option E) (a : A)
    → IsStatus code
    → IsStatusOutcome (checked code e a)
checked-IsStatus code none a h = tt
checked-IsStatus code (some e) a h = h

module _ {W : Type 0} ⦃d : Double W⦄ (m : MemInfo W) (l : Limits W) where
  take_limit-IsStatus : (o : LimitOption) → IsStatusOutcome (take_limit m o l)
  unfolding take_limit
  take_limit-IsStatus (mem_percent text) = checked-IsStatus 15 _ _ refl
  take_limit-IsStatus (swap_percent text) = checked-IsStatus 16 _ _ refl
  take_limit-IsStatus (mem_size text) = checked-IsStatus 15 _ _ refl
  take_limit-IsStatus (swap_size text) = checked-IsStatus 16 _ _ refl

module _ (os : Os) where
  end-Exits : {A : Type 0} → Exits {A = A} IsStatus (exit 0)
  end-Exits = Exits-exit 0 refl

  usage-Exits : {A : Type 0} → Exits {A = A} IsStatus (exit 13)
  usage-Exits = Exits-exit 13 refl

  no_proc-Exits : {A : Type 0} → Exits {A = A} IsStatus (fatal os 4)
  no_proc-Exits = Exits-fatal os 4 refl

  interval-Exits : {A : Type 0} → Exits {A = A} IsStatus (fatal os 14)
  interval-Exits = Exits-fatal os 14 refl

  extra-Exits : {A : Type 0} → Exits {A = A} IsStatus (fatal os 13)
  extra-Exits = Exits-fatal os 13 refl

module _ {F : Type 0} (os : Os) (lib : Clib F) where
  compiled-Exits : (test : Option (Bytes → Bool)) → Exits IsStatus (compiled os lib test)
  unfolding compiled
  compiled-Exits none = Exits-fatal os 6 refl
  compiled-Exits (some test) = search (exits_rules) depth 14

  compile-Exits : (text : Option Bytes) → Exits IsStatus (compile os lib text)
  unfolding compile
  compile-Exits none = Exits-pure none
  compile-Exits (some text) = compiled-Exits (lib.regcomp text)

module _ {W F : Type 0} ⦃d : Double W⦄ (os : Os) (lib : Clib F) where
  set_limits-Exits :
      (s : Settings W) (o : Outcome (Limits W))
      → IsStatusOutcome o
      → Exits IsStatus (set_limits os lib s o)
  unfolding set_limits
  set_limits-Exits s (ok l) h = Exits-pure _
  set_limits-Exits s (fatal_status code) h = Exits-fatal os code h

  take_option-Exits :
      (m : MemInfo W) (o : Opt) (s : Settings W) → Exits IsStatus (take_option os lib m o s)
  unfolding take_option
  take_option-Exits m (limit o) s =
      Exits-bind (set_limits-Exits s _ (take_limit-IsStatus m s.limits o))
        λ s'. search (exits_rules) depth 14
  take_option-Exits m version s = end-Exits os
  take_option-Exits m help s = search (exits_rules, end-Exits os) depth 14
  take_option-Exits m (report_interval text) s = search (exits_rules, interval-Exits os) depth 14
  take_option-Exits m unknown s = search (exits_rules, usage-Exits os) depth 14
  take_option-Exits m _ s = search (exits_rules) depth 14

  take_options-Exits :
      (m : MemInfo W) (options : List Opt) (s : Settings W)
      → Exits IsStatus (take_options os lib m options s)
  unfolding take_options
  take_options-Exits m [] s = Exits-pure s
  take_options-Exits m (o ∷ options) s =
      Exits-bind (take_option-Exits m o s) λ s'. take_options-Exits m options s'

  settle-Exits : (m : MemInfo W) (s : Settings W) → Exits IsStatus (settle os lib m s)
  unfolding settle
  settle-Exits m s = search (exits_rules, compile-Exits os lib, raise_priority-Exits) depth 20

-- The program, run for any number of rounds, ends the process only with one of the statuses 0, 1,
-- 4, 5, 6, 13, 14, 15, 16, 102, 103 and 104, whatever the options are and whatever the kernel
-- answers.
pub main-Exits :
    (W : Type 0) {F : Type 0} ⦃d : Double W⦄ (os : Os) (lib : Clib F) (options : List Opt)
    (extra : Bool) (interrupts rounds : ℕ)
    → Exits IsStatus (main W os lib options extra interrupts rounds)
unfolding main
main-Exits W os lib options extra interrupts rounds =
    search
      (
        exits_rules,
        no_proc-Exits os,
        parse_meminfo-Exits,
        take_options-Exits os lib,
        extra-Exits os,
        settle-Exits os lib,
        startup_selftests-Exits,
        lock_memory-Exits,
        poll_rounds-Exits,
      )
      depth 30
