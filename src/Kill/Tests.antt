-- ===== src/Kill/Tests.antt =====
-- The laws of the kill at a concrete kernel and victim.
use earlyoom.Prelude.{false}
use earlyoom.Prelude.Int.{pos}
use earlyoom.Double.Whole.{whole_double}
use earlyoom.Args.{sigterm}
use earlyoom.Machine.Calls.{Calls}
use earlyoom.Machine.Sleeps.{Within}
use earlyoom.Kill.{kill_wait, kill_process}
use earlyoom.Kill.Signals.{IsTarget, IsKillOf, kill_process-IsKillOf}
use earlyoom.Kill.Waits.{kill_wait-Within}
use earlyoom.Machine.{Machine}
use earlyoom.Samples.{start, default_args, victim_42, roomy_os}

kill_process-IsKillOf_example :
    Calls
      (IsKillOf (IsTarget roomy_os false (pos 42)) sigterm)
      (kill_process roomy_os default_args sigterm victim_42)
kill_process-IsKillOf_example = kill_process-IsKillOf roomy_os default_args sigterm victim_42

kill_wait-Within_example : Within 10_000_000_000 (kill_wait roomy_os default_args (pos 42) sigterm)
kill_wait-Within_example = kill_wait-Within roomy_os default_args (pos 42) sigterm

abbrev killed : Machine
killed = (kill_wait roomy_os default_args (pos 42) sigterm start).1
