-- ===== src/Main/Tests.antt =====
-- The laws of the program at a concrete kernel and a concrete C library.
use earlyoom.Prelude.{if◌then◌else◌, refl, false, List, [], ◌∷◌, some, inl, inr}
use earlyoom.Prelude.Int.{ℤ, pos, ltb_ℤ}
use earlyoom.Prelude.Text.{codes}
use earlyoom.Double.Whole.{Whole, whole_double}
use earlyoom.Machine.Calls.{Calls}
use earlyoom.Machine.Exits.{Exits, IsStatus}
use earlyoom.Kill.Dryrun.{IsHarmless}
use earlyoom.Options.{mem_percent}
use earlyoom.Main.{Opt, limit, dryrun, prefer, report_interval, Clib, main}
use earlyoom.Main.Harmless.{main-IsHarmless}
use earlyoom.Main.Exits.{main-Exits}
use earlyoom.Main.Nets.{main-Nets}
use earlyoom.Machine.Nets.{Weight, Stays}
use earlyoom.Kill.Nets.{IsPlain}
use earlyoom.Prelude.{arith}
use earlyoom.Samples.{roomy_os, busy_os}

-- Every number reads as 2, and no regular expression matches.
abbrev plain_lib : Clib ℤ
plain_lib = record {
  strtof = λ text. pos 2;
  is_negative = λ x. ltb_ℤ x (pos 0);
  millis = λ x. pos 2000;
  regcomp = λ text. some (λ name. false);
}

abbrev options : List Opt
options =
    limit (mem_percent (codes "20"))
    ∷ prefer (codes "a")
    ∷ dryrun
    ∷ report_interval (codes "2")
    ∷ []

main-IsHarmless_example : Calls IsHarmless (main Whole roomy_os plain_lib options false 3 20)
main-IsHarmless_example =
    main-IsHarmless Whole roomy_os plain_lib options false 3 20 (inr (inr (inl refl)))

main-Exits_example : Exits IsStatus (main Whole busy_os plain_lib options false 3 20)
main-Exits_example = main-Exits Whole busy_os plain_lib options false 3 20

busy-IsPlain : IsPlain busy_os
busy-IsPlain = record { fails = λ t pid h. absurd (ground arith) }

abbrev by_number : Weight
by_number = record { file = λ f. 1; descriptor = λ fd. if ltb_ℤ fd (pos 5) then 2 else 3 }

main-Nets_example : Stays by_number 0 (main Whole busy_os plain_lib options false 3 20)
main-Nets_example = main-Nets Whole busy_os busy-IsPlain by_number 0 plain_lib options false 3 20
