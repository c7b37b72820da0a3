-- ===== src/Proc/Exits.antt =====
-- `is_alive` of meminfo.c: the statuses with which it may end the process.
use earlyoom.Prelude.{ℕ}
use earlyoom.Prelude.Int.{ℤ}
use earlyoom.Machine.{Os}
use earlyoom.Machine.Exits.{Exits}
use earlyoom.Machine.Passes.{Passes-Exits}
use earlyoom.Proc.{is_alive}
use earlyoom.Proc.Passes.{is_alive-Passes}

pub is_alive-Exits : (os : Os) {E : ℕ → Type 0} (pid : ℤ) → Exits E (is_alive os pid)
is_alive-Exits os pid = Passes-Exits (is_alive-Passes os pid)
