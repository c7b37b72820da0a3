-- ===== src/Select/Steady.antt =====
-- The checks of `is_larger` in kill.c, in a world that stands still.
use earlyoom.Prelude.{Option, none, some}
use earlyoom.Args.{Args}
use earlyoom.ProcPid.{PidStat}
use earlyoom.Machine.{Os, Action}
use earlyoom.Machine.Steady.{IsStill, Steady, steady_rules}
use earlyoom.Proc.Steady.{
  parse_proc_pid_stat-Steady, get_oom_score-Steady, get_oom_score_adj-Steady, get_comm-Steady,
  get_uid-Steady,
}
use earlyoom.Select.{
  ProcInfo, Verdict, ◌▸◌, check_pid, check_kernel_thread, check_root, check_name, take_stat,
  read_stat, read_oom_score, check_adj, measure,
}

Steady-and_then :
    {x : Action Verdict} {f : ProcInfo → Action Verdict}
    → Steady x
    → ((cur : ProcInfo) → Steady (f cur))
    → Steady (x ▸ f)
unfolding ◌▸◌
Steady-and_then sx sf = search (steady_rules, sx, sf) depth 14

module _ (os : Os) (still : IsStill os) (cur : ProcInfo) where
  check_pid-Steady : Steady (check_pid cur)
  unfolding check_pid
  check_pid-Steady = search (steady_rules) depth 14

  check_kernel_thread-Steady : Steady (check_kernel_thread cur)
  unfolding check_kernel_thread
  check_kernel_thread-Steady = search (steady_rules) depth 14

  take_stat-Steady : (s : Option PidStat) → Steady (take_stat os cur s)
  unfolding take_stat
  take_stat-Steady none = search (steady_rules) depth 14
  take_stat-Steady (some s) = search (steady_rules, still) depth 14

  read_stat-Steady : Steady (read_stat os cur)
  unfolding read_stat
  read_stat-Steady =
      search (steady_rules, still, parse_proc_pid_stat-Steady, take_stat-Steady) depth 14

  read_oom_score-Steady : Steady (read_oom_score os cur)
  unfolding read_oom_score
  read_oom_score-Steady = search (steady_rules, still, get_oom_score-Steady) depth 14

  pub check_adj-Steady : Steady (check_adj os cur)
  unfolding check_adj
  check_adj-Steady = search (steady_rules, still, get_oom_score_adj-Steady) depth 14

module _ {W : Type 0} (os : Os) (args : Args W) (still : IsStill os) where
  check_root-Steady : (cur : ProcInfo) → Steady (check_root os args cur)
  unfolding check_root
  check_root-Steady cur = search (steady_rules, still, get_uid-Steady) depth 14

  check_name-Steady : (cur : ProcInfo) → Steady (check_name os args cur)
  unfolding check_name
  check_name-Steady cur = search (steady_rules, still, get_comm-Steady) depth 14

  pub measure-Steady : (cur : ProcInfo) → Steady (measure os args cur)
  unfolding measure
  measure-Steady cur =
      search
        (
          Steady-and_then, still, check_pid-Steady, check_root-Steady, read_stat-Steady,
          check_kernel_thread-Steady, read_oom_score-Steady, check_name-Steady,
        )
        depth 14
