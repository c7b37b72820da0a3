-- ===== src/Select/Nets.antt =====
-- The choice of a victim in kill.c: its files.
use earlyoom.Prelude.{ℕ, Option, none, some, List, [], ◌∷◌}
use earlyoom.Prelude.Text.{Bytes}
use earlyoom.Args.{Args}
use earlyoom.ProcPid.{PidStat}
use earlyoom.Machine.{Os, Action}
use earlyoom.Machine.Nets.{Weight, Stays, Stays-fatal, stays_rules}
use earlyoom.Proc.Nets.{
  parse_proc_pid_stat-Nets, get_oom_score-Nets, get_oom_score_adj-Nets, get_comm-Nets,
  get_cmdline-Nets, get_uid-Nets,
}
use earlyoom.Select.{
  ProcInfo, Verdict, ◌▸◌, check_pid, check_kernel_thread, check_root, check_name, warn_zombie,
  compare_with, take_stat, read_stat, read_oom_score, check_adj, fill_informative_fields,
  debug_print_procinfo, measure, is_larger, consider, scan_names, find_largest_process,
}

Stays-and_then :
    {w : Weight} {n : ℕ} {x : Action Verdict} {f : ProcInfo → Action Verdict}
    → Stays w n x
    → ((cur : ProcInfo) → Stays w n (f cur))
    → Stays w n (x ▸ f)
unfolding ◌▸◌
Stays-and_then cx cf = search (stays_rules, cx, cf) depth 14

module _ {w : Weight} {n : ℕ} (os : Os) (cur : ProcInfo) where
  check_pid-Nets : Stays w n (check_pid cur)
  unfolding check_pid
  check_pid-Nets = search (stays_rules) depth 14

  check_kernel_thread-Nets : Stays w n (check_kernel_thread cur)
  unfolding check_kernel_thread
  check_kernel_thread-Nets = search (stays_rules) depth 14

  take_stat-Nets : (s : Option PidStat) → Stays w n (take_stat os cur s)
  unfolding take_stat
  take_stat-Nets none = search (stays_rules) depth 14
  take_stat-Nets (some s) = search (stays_rules) depth 14

  read_stat-Nets : Stays w n (read_stat os cur)
  unfolding read_stat
  read_stat-Nets = search (stays_rules, parse_proc_pid_stat-Nets, take_stat-Nets) depth 14

  read_oom_score-Nets : Stays w n (read_oom_score os cur)
  unfolding read_oom_score
  read_oom_score-Nets = search (stays_rules, get_oom_score-Nets) depth 14

  check_adj-Nets : Stays w n (check_adj os cur)
  unfolding check_adj
  check_adj-Nets = search (stays_rules, get_oom_score_adj-Nets) depth 14

  fill_informative_fields-Nets : Stays w n (fill_informative_fields os cur)
  unfolding fill_informative_fields
  fill_informative_fields-Nets =
      search (stays_rules, get_comm-Nets, get_cmdline-Nets, get_uid-Nets) depth 14

  debug_print_procinfo-Nets : Stays w n (debug_print_procinfo os cur)
  unfolding debug_print_procinfo
  debug_print_procinfo-Nets = search (stays_rules, fill_informative_fields-Nets) depth 14

module _ {w : Weight} {n : ℕ} {W : Type 0} (os : Os) (args : Args W) where
  check_root-Nets : (cur : ProcInfo) → Stays w n (check_root os args cur)
  unfolding check_root
  check_root-Nets cur = search (stays_rules, get_uid-Nets) depth 14

  check_name-Nets : (cur : ProcInfo) → Stays w n (check_name os args cur)
  unfolding check_name
  check_name-Nets cur = search (stays_rules, get_comm-Nets) depth 14

  compare_with-Nets : (victim cur : ProcInfo) → Stays w n (compare_with os args victim cur)
  unfolding compare_with warn_zombie
  compare_with-Nets victim cur = search (stays_rules, get_comm-Nets) depth 14

  measure-Nets : (cur : ProcInfo) → Stays w n (measure os args cur)
  unfolding measure
  measure-Nets cur =
      search
        (
          Stays-and_then, check_pid-Nets, check_root-Nets, read_stat-Nets, check_kernel_thread-Nets,
          read_oom_score-Nets, check_name-Nets,
        )
        depth 14

  is_larger-Nets : (victim cur : ProcInfo) → Stays w n (is_larger os args victim cur)
  unfolding is_larger
  is_larger-Nets victim cur =
      search (Stays-and_then, measure-Nets, compare_with-Nets, check_adj-Nets) depth 14

  consider-Nets : (name : Bytes) (victim : ProcInfo) → Stays w n (consider os args name victim)
  unfolding consider
  consider-Nets name victim =
      search (stays_rules, is_larger-Nets, debug_print_procinfo-Nets) depth 14

  scan_names-Nets :
      (names : List Bytes) (victim : ProcInfo) → Stays w n (scan_names os args names victim)
  unfolding scan_names
  scan_names-Nets [] victim = search (stays_rules)
  scan_names-Nets (name ∷ names) victim =
      search (stays_rules, consider-Nets, scan_names-Nets names) depth 14

  pub find_largest_process-Nets : Stays w n (find_largest_process os args)
  unfolding find_largest_process
  find_largest_process-Nets =
      search (stays_rules, Stays-fatal os 5, scan_names-Nets, fill_informative_fields-Nets) depth 14
