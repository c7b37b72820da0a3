-- ===== src/Startup/Tests.antt =====
-- The laws of the self-tests at a concrete kernel.
use earlyoom.Prelude.{some}
use earlyoom.Prelude.Text.{codes}
use earlyoom.Double.Whole.{Whole, whole_double}
use earlyoom.Args.{Args}
use earlyoom.Machine.Calls.{Calls}
use earlyoom.Machine.Returns.{Returns, Any}
use earlyoom.Kill.Dryrun.{IsHarmless}
use earlyoom.Startup.{startup_selftests}
use earlyoom.Startup.Harmless.{startup_selftests-IsHarmless}
use earlyoom.Startup.Paths.{IsChecked, startup_selftests-IsChecked}
use earlyoom.Samples.{busy_os, default_args}

startup_selftests-IsHarmless_example : Calls IsHarmless (startup_selftests busy_os default_args)
startup_selftests-IsHarmless_example = startup_selftests-IsHarmless busy_os default_args

abbrev hooked_args : Args Whole
hooked_args = record default_args { kill_process_prehook = some (codes "hook.sh") }

startup_selftests-IsChecked_example :
    Returns
      (λ (a : Args Whole).
        IsChecked hooked_args.notify_ext a.notify_ext
        × IsChecked hooked_args.kill_process_prehook a.kill_process_prehook)
      Any
      (startup_selftests busy_os hooked_args)
startup_selftests-IsChecked_example = startup_selftests-IsChecked busy_os hooked_args
