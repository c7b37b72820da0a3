-- ===== src/Sigchld.antt =====
-- main.c: `handle_sigchld`, which runs on SIGCHLD.
--
-- The source has no bound on the rounds of its loop; here there are at most `rounds`, and the result
-- says whether the loop came to its end.
pub mod Ends
pub mod Race
mod Tests
use earlyoom.Prelude.{ℕ, zero, suc, Bool, true, false}
use earlyoom.Prelude.Int.{ℤ, pos, leb_ℤ}
use earlyoom.Machine.{wait_any, Os, Action, pure, branch, ◌>>=◌, call}

unfoldable pub handle_sigchld : Os → ℕ → Action Bool
handle_sigchld os zero = pure false
handle_sigchld os (suc rounds) = do
  pid ← call os wait_any
  branch (leb_ℤ pid.ret (pos 0)) (pure true) (handle_sigchld os rounds)
