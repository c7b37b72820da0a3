-- ===== src/Select/Passes.antt =====
-- The choice of a victim in kill.c: going on to its end.
use earlyoom.Prelude.{◌≡◌, false, Option, none, some, List, [], ◌∷◌}
use earlyoom.Prelude.Text.{Bytes}
use earlyoom.Args.{Args}
use earlyoom.ProcPid.{PidStat}
use earlyoom.Machine.{read_dir, Os, Machine, Action, ◌>>=◌, call, failed}
use earlyoom.Machine.Passes.{IsDone, Passes, goes-branch, passes_rules}
use earlyoom.Proc.Passes.{
  parse_proc_pid_stat-Passes, get_oom_score-Passes, get_oom_score_adj-Passes, get_comm-Passes,
  get_cmdline-Passes, get_uid-Passes,
}
use earlyoom.Select.{
  ProcInfo, Verdict, ◌▸◌, check_pid, check_kernel_thread, check_root, check_name, warn_zombie,
  compare_with, take_stat, read_stat, read_oom_score, check_adj, fill_informative_fields,
  debug_print_procinfo, measure, is_larger, consider, scan_names, find_largest_process,
}

Passes-and_then :
    {x : Action Verdict} {f : ProcInfo → Action Verdict}
    → Passes x
    → ((cur : ProcInfo) → Passes (f cur))
    → Passes (x ▸ f)
unfolding ◌▸◌
Passes-and_then cx cf = search (passes_rules, cx, cf) depth 14

module _ (os : Os) (cur : ProcInfo) where
  check_pid-Passes : Passes (check_pid cur)
  unfolding check_pid
  check_pid-Passes = search (passes_rules) depth 14

  check_kernel_thread-Passes : Passes (check_kernel_thread cur)
  unfolding check_kernel_thread
  check_kernel_thread-Passes = search (passes_rules) depth 14

  take_stat-Passes : (s : Option PidStat) → Passes (take_stat os cur s)
  unfolding take_stat
  take_stat-Passes none = search (passes_rules) depth 14
  take_stat-Passes (some s) = search (passes_rules) depth 14

  read_stat-Passes : Passes (read_stat os cur)
  unfolding read_stat
  read_stat-Passes = search (passes_rules, parse_proc_pid_stat-Passes, take_stat-Passes) depth 14

  read_oom_score-Passes : Passes (read_oom_score os cur)
  unfolding read_oom_score
  read_oom_score-Passes = search (passes_rules, get_oom_score-Passes) depth 14

  check_adj-Passes : Passes (check_adj os cur)
  unfolding check_adj
  check_adj-Passes = search (passes_rules, get_oom_score_adj-Passes) depth 14

  pub fill_informative_fields-Passes : Passes (fill_informative_fields os cur)
  unfolding fill_informative_fields
  fill_informative_fields-Passes =
      search (passes_rules, get_comm-Passes, get_cmdline-Passes, get_uid-Passes) depth 14

  debug_print_procinfo-Passes : Passes (debug_print_procinfo os cur)
  unfolding debug_print_procinfo
  debug_print_procinfo-Passes = search (passes_rules, fill_informative_fields-Passes) depth 14

module _ {W : Type 0} (os : Os) (args : Args W) where
  check_root-Passes : (cur : ProcInfo) → Passes (check_root os args cur)
  unfolding check_root
  check_root-Passes cur = search (passes_rules, get_uid-Passes) depth 14

  check_name-Passes : (cur : ProcInfo) → Passes (check_name os args cur)
  unfolding check_name
  check_name-Passes cur = search (passes_rules, get_comm-Passes) depth 14

  compare_with-Passes : (victim cur : ProcInfo) → Passes (compare_with os args victim cur)
  unfolding compare_with warn_zombie
  compare_with-Passes victim cur = search (passes_rules, get_comm-Passes) depth 14

  measure-Passes : (cur : ProcInfo) → Passes (measure os args cur)
  unfolding measure
  measure-Passes cur =
      search
        (
          Passes-and_then, check_pid-Passes, check_root-Passes, read_stat-Passes,
          check_kernel_thread-Passes, read_oom_score-Passes, check_name-Passes,
        )
        depth 14

  is_larger-Passes : (victim cur : ProcInfo) → Passes (is_larger os args victim cur)
  unfolding is_larger
  is_larger-Passes victim cur =
      search (Passes-and_then, measure-Passes, compare_with-Passes, check_adj-Passes) depth 14

  consider-Passes : (name : Bytes) (victim : ProcInfo) → Passes (consider os args name victim)
  unfolding consider
  consider-Passes name victim =
      search (passes_rules, is_larger-Passes, debug_print_procinfo-Passes) depth 14

  pub scan_names-Passes :
      (names : List Bytes) (victim : ProcInfo) → Passes (scan_names os args names victim)
  unfolding scan_names
  scan_names-Passes [] victim = search (passes_rules)
  scan_names-Passes (name ∷ names) victim =
      search (passes_rules, consider-Passes, scan_names-Passes names) depth 14

  pub find_largest_process-goes :
      (m : Machine)
      → failed (os m.trace read_dir) ≡ false
      → IsDone (find_largest_process os args m).0
  unfolding find_largest_process ◌>>=◌ call
  find_largest_process-goes m e =
      goes-branch _ _ _ _ e
        (search (passes_rules, scan_names-Passes, fill_informative_fields-Passes) depth 14)
