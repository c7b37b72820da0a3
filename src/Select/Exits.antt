-- ===== src/Select/Exits.antt =====
-- The choice of a victim in kill.c: the statuses with which it may end the process.
use earlyoom.Prelude.{refl}
use earlyoom.Args.{Args}
use earlyoom.Machine.{Os}
use earlyoom.Machine.Exits.{Exits, Exits-fatal, IsStatus, exits_rules}
use earlyoom.Machine.Passes.{Passes-Exits}
use earlyoom.Select.{find_largest_process}
use earlyoom.Select.Passes.{scan_names-Passes, fill_informative_fields-Passes}

pub find_largest_process-Exits :
    {W : Type 0} (os : Os) (args : Args W) → Exits IsStatus (find_largest_process os args)
unfolding find_largest_process
find_largest_process-Exits os args =
    search
      (
        exits_rules,
        Exits-fatal {E = IsStatus} os 5 refl,
        Passes-Exits,
        scan_names-Passes,
        fill_informative_fields-Passes,
      )
      depth 14
