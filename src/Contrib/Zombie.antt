-- ===== src/Contrib/Zombie.antt =====
-- contrib/zombie.c: it leaves a zombie child for ten minutes.
use earlyoom.Prelude.Int.{pos, ltb_ℤ}
use earlyoom.Machine.{
  tool, wait, fork, sleep, Os, Action, exit, branch, ◌>>=◌, ◌>>◌, call, warn, info,
}

-- In the parent and in the child: `fork` gives the child 0.
unfoldable pub zombie : Os → Action Unit
zombie os = do
  pid ← call os fork
  branch (ltb_ℤ pid.ret (pos 0)) (warn os >> exit 1) (
      branch (ltb_ℤ (pos 0) pid.ret) (do info os; call os (sleep 600); call os (tool wait); exit 0)
        (exit 0))
