-- ===== src/Kill/Success.antt =====
-- When `kill_wait` reports success.
use earlyoom.Prelude.{List}
use earlyoom.Prelude.Int.{ℤ}
use earlyoom.Double.{Double}
use earlyoom.Args.{Args}
use earlyoom.Machine.{Event, Os, Machine}
use earlyoom.Machine.Calls.{Adds, Calls}
use earlyoom.Machine.Quiet.{IsAside}
use earlyoom.Kill.Gone.{IsGone}

-- The process was found to be gone, and since then nothing was done to another process.
pub record SeenDead (os : Os) (pid : ℤ) (now : Machine) : Type 0 where
  pub asked : List Event
  pub gone : IsGone os pid asked
  pub since : Adds IsAside asked now.trace
