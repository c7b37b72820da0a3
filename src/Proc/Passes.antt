-- ===== src/Proc/Passes.antt =====
-- The readers of /proc/$pid in meminfo.c and proc_pid.c: going on to their ends.
use earlyoom.Prelude.Int.{ℤ}
use earlyoom.Prelude.Text.{Bytes}
use earlyoom.Machine.{ProcFile, Os}
use earlyoom.Machine.Passes.{Passes, passes_rules}
use earlyoom.Proc.{
  parse_proc_pid_stat, is_alive, read_proc_file_integer, get_oom_score, get_oom_score_adj, get_comm,
  get_cmdline, get_uid,
}

module _ (os : Os) where
  pub parse_proc_pid_stat-Passes : (pid : ℤ) → Passes (parse_proc_pid_stat os pid)
  unfolding parse_proc_pid_stat
  parse_proc_pid_stat-Passes pid = search (passes_rules) depth 20

  pub is_alive-Passes : (pid : ℤ) → Passes (is_alive os pid)
  unfolding is_alive
  is_alive-Passes pid = search (passes_rules, parse_proc_pid_stat-Passes) depth 20

  read_proc_file_integer-Passes :
      (file : ProcFile) (out : ℤ) → Passes (read_proc_file_integer os file out)
  unfolding read_proc_file_integer
  read_proc_file_integer-Passes file out = search (passes_rules) depth 20

  pub get_oom_score-Passes : (pid : ℤ) → Passes (get_oom_score os pid)
  unfolding get_oom_score
  get_oom_score-Passes pid = search (passes_rules, read_proc_file_integer-Passes) depth 20

  pub get_oom_score_adj-Passes : (pid out : ℤ) → Passes (get_oom_score_adj os pid out)
  unfolding get_oom_score_adj
  get_oom_score_adj-Passes pid out = read_proc_file_integer-Passes _ out

  pub get_comm-Passes : (pid : ℤ) (out : Bytes) → Passes (get_comm os pid out)
  unfolding get_comm
  get_comm-Passes pid out = search (passes_rules) depth 20

  pub get_cmdline-Passes : (pid : ℤ) (out : Bytes) → Passes (get_cmdline os pid out)
  unfolding get_cmdline
  get_cmdline-Passes pid out = search (passes_rules) depth 20

  pub get_uid-Passes : (pid : ℤ) → Passes (get_uid os pid)
  unfolding get_uid
  get_uid-Passes pid = search (passes_rules) depth 20
