-- ===== src/Proc/Reads.antt =====
-- The readers of /proc/$pid in meminfo.c and proc_pid.c: their calls.
use earlyoom.Prelude.Int.{ℤ}
use earlyoom.Prelude.Text.{Bytes}
use earlyoom.Machine.{ProcFile, Os}
use earlyoom.Machine.Calls.{Calls, calls_rules}
use earlyoom.Machine.Quiet.{IsReading}
use earlyoom.Proc.{
  parse_proc_pid_stat, read_proc_file_integer, get_oom_score, get_oom_score_adj, get_comm,
  get_cmdline, get_uid,
}

module _ (os : Os) where
  pub parse_proc_pid_stat-Calls : (pid : ℤ) → Calls IsReading (parse_proc_pid_stat os pid)
  unfolding parse_proc_pid_stat
  parse_proc_pid_stat-Calls pid = search (calls_rules) depth 14

  read_proc_file_integer-Calls :
      (file : ProcFile) (out : ℤ) → Calls IsReading (read_proc_file_integer os file out)
  unfolding read_proc_file_integer
  read_proc_file_integer-Calls file out = search (calls_rules) depth 14

  pub get_oom_score-Calls : (pid : ℤ) → Calls IsReading (get_oom_score os pid)
  unfolding get_oom_score
  get_oom_score-Calls pid = search (calls_rules, read_proc_file_integer-Calls) depth 14

  pub get_oom_score_adj-Calls : (pid out : ℤ) → Calls IsReading (get_oom_score_adj os pid out)
  unfolding get_oom_score_adj
  get_oom_score_adj-Calls pid out = read_proc_file_integer-Calls _ out

  pub get_comm-Calls : (pid : ℤ) (out : Bytes) → Calls IsReading (get_comm os pid out)
  unfolding get_comm
  get_comm-Calls pid out = search (calls_rules) depth 14

  pub get_cmdline-Calls : (pid : ℤ) (out : Bytes) → Calls IsReading (get_cmdline os pid out)
  unfolding get_cmdline
  get_cmdline-Calls pid out = search (calls_rules) depth 14

  pub get_uid-Calls : (pid : ℤ) → Calls IsReading (get_uid os pid)
  unfolding get_uid
  get_uid-Calls pid = search (calls_rules) depth 14
