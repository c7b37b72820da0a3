-- ===== src/Select/Reads.antt =====
-- The choice of a victim in kill.c: its calls.
use earlyoom.Prelude.{Option, none, some, List, [], ◌∷◌}
use earlyoom.Prelude.Text.{Bytes}
use earlyoom.Args.{Args}
use earlyoom.ProcPid.{PidStat}
use earlyoom.Machine.{Os, Action}
use earlyoom.Machine.Calls.{Calls, calls_rules}
use earlyoom.Machine.Quiet.{IsReading}
use earlyoom.Proc.Reads.{
  parse_proc_pid_stat-Calls, get_oom_score-Calls, get_oom_score_adj-Calls, get_comm-Calls,
  get_cmdline-Calls, get_uid-Calls,
}
use earlyoom.Select.{
  ProcInfo, Verdict, ◌▸◌, check_pid, check_kernel_thread, check_root, check_name, warn_zombie,
  compare_with, take_stat, read_stat, read_oom_score, check_adj, fill_informative_fields,
  debug_print_procinfo, measure, is_larger, consider, scan_names, find_largest_process,
}

Calls-and_then :
    {x : Action Verdict} {f : ProcInfo → Action Verdict}
    → Calls IsReading x
    → ((cur : ProcInfo) → Calls IsReading (f cur))
    → Calls IsReading (x ▸ f)
unfolding ◌▸◌
Calls-and_then cx cf = search (calls_rules, cx, cf) depth 14

module _ (os : Os) (cur : ProcInfo) where
  check_pid-Calls : Calls IsReading (check_pid cur)
  unfolding check_pid
  check_pid-Calls = search (calls_rules) depth 14

  check_kernel_thread-Calls : Calls IsReading (check_kernel_thread cur)
  unfolding check_kernel_thread
  check_kernel_thread-Calls = search (calls_rules) depth 14

  take_stat-Calls : (s : Option PidStat) → Calls IsReading (take_stat os cur s)
  unfolding take_stat
  take_stat-Calls none = search (calls_rules) depth 14
  take_stat-Calls (some s) = search (calls_rules) depth 14

  read_stat-Calls : Calls IsReading (read_stat os cur)
  unfolding read_stat
  read_stat-Calls = search (calls_rules, parse_proc_pid_stat-Calls, take_stat-Calls) depth 14

  read_oom_score-Calls : Calls IsReading (read_oom_score os cur)
  unfolding read_oom_score
  read_oom_score-Calls = search (calls_rules, get_oom_score-Calls) depth 14

  check_adj-Calls : Calls IsReading (check_adj os cur)
  unfolding check_adj
  check_adj-Calls = search (calls_rules, get_oom_score_adj-Calls) depth 14

  fill_informative_fields-Calls : Calls IsReading (fill_informative_fields os cur)
  unfolding fill_informative_fields
  fill_informative_fields-Calls =
      search (calls_rules, get_comm-Calls, get_cmdline-Calls, get_uid-Calls) depth 14

  debug_print_procinfo-Calls : Calls IsReading (debug_print_procinfo os cur)
  unfolding debug_print_procinfo
  debug_print_procinfo-Calls = search (calls_rules, fill_informative_fields-Calls) depth 14

module _ {W : Type 0} (os : Os) (args : Args W) where
  check_root-Calls : (cur : ProcInfo) → Calls IsReading (check_root os args cur)
  unfolding check_root
  check_root-Calls cur = search (calls_rules, get_uid-Calls) depth 14

  check_name-Calls : (cur : ProcInfo) → Calls IsReading (check_name os args cur)
  unfolding check_name
  check_name-Calls cur = search (calls_rules, get_comm-Calls) depth 14

  compare_with-Calls : (victim cur : ProcInfo) → Calls IsReading (compare_with os args victim cur)
  unfolding compare_with warn_zombie
  compare_with-Calls victim cur = search (calls_rules, get_comm-Calls) depth 14

  measure-Calls : (cur : ProcInfo) → Calls IsReading (measure os args cur)
  unfolding measure
  measure-Calls cur =
      search
        (
          Calls-and_then, check_pid-Calls, check_root-Calls, read_stat-Calls,
          check_kernel_thread-Calls, read_oom_score-Calls, check_name-Calls,
        )
        depth 14

  is_larger-Calls : (victim cur : ProcInfo) → Calls IsReading (is_larger os args victim cur)
  unfolding is_larger
  is_larger-Calls victim cur =
      search (Calls-and_then, measure-Calls, compare_with-Calls, check_adj-Calls) depth 14

  consider-Calls :
      (name : Bytes) (victim : ProcInfo) → Calls IsReading (consider os args name victim)
  unfolding consider
  consider-Calls name victim =
      search (calls_rules, is_larger-Calls, debug_print_procinfo-Calls) depth 14

  scan_names-Calls :
      (names : List Bytes) (victim : ProcInfo) → Calls IsReading (scan_names os args names victim)
  unfolding scan_names
  scan_names-Calls [] victim = search (calls_rules)
  scan_names-Calls (name ∷ names) victim =
      search (calls_rules, consider-Calls, scan_names-Calls names) depth 14

  pub find_largest_process-Calls : Calls IsReading (find_largest_process os args)
  unfolding find_largest_process
  find_largest_process-Calls =
      search (calls_rules, scan_names-Calls, fill_informative_fields-Calls) depth 14
