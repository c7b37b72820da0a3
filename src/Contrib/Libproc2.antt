-- ===== src/Contrib/Libproc2.antt =====
-- contrib/libproc2-test/libproc2-test.c: it asks libproc2 for the state of process 1.
use earlyoom.Prelude.{not, ◌==◌}
use earlyoom.Prelude.Int.{pos, ◌==ℤ◌}
use earlyoom.Machine.{
  tool, procps_pids_new, procps_pids_select, Os, Action, exit, branch, ◌>>=◌, ◌>>◌, call, info,
}

-- The process ends at the end of `main`.
unfoldable pub libproc2_test : Os → Action Unit
libproc2_test os = do
  ret ← call os (tool procps_pids_new)
  branch (not (ret.ret ==ℤ pos 0)) (info os >> exit 4) do
    fetched ← call os (tool (procps_pids_select (pos 1)))
    branch (fetched.ret ==ℤ pos 0) (info os >> exit 3)
        do branch (not (fetched.number == 1)) (exit 2) (info os >> exit 0)
