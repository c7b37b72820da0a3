-- ===== src/Proc/Steady.antt =====
-- The readers of /proc/$pid in meminfo.c and proc_pid.c, in a world that stands still.
use earlyoom.Prelude.Int.{ℤ}
use earlyoom.Prelude.Text.{Bytes}
use earlyoom.Machine.{ProcFile, Os}
use earlyoom.Machine.Steady.{IsStill, Steady, Steady-or_errno, steady_rules}
use earlyoom.Proc.{
  parse_proc_pid_stat, read_proc_file_integer, get_oom_score, get_oom_score_adj, get_comm, get_uid,
}

module _ (os : Os) (still : IsStill os) where
  pub parse_proc_pid_stat-Steady : (pid : ℤ) → Steady (parse_proc_pid_stat os pid)
  unfolding parse_proc_pid_stat
  parse_proc_pid_stat-Steady pid = search (steady_rules, still) depth 20

  read_proc_file_integer-Steady :
      (file : ProcFile) (out : ℤ) → Steady (read_proc_file_integer os file out)
  unfolding read_proc_file_integer
  read_proc_file_integer-Steady file out =
      Steady-or_errno os still _ _ _ λ f. search (steady_rules, still) depth 20

  pub get_oom_score-Steady : (pid : ℤ) → Steady (get_oom_score os pid)
  unfolding get_oom_score
  get_oom_score-Steady pid = search (steady_rules, read_proc_file_integer-Steady) depth 20

  pub get_oom_score_adj-Steady : (pid out : ℤ) → Steady (get_oom_score_adj os pid out)
  unfolding get_oom_score_adj
  get_oom_score_adj-Steady pid out = read_proc_file_integer-Steady _ out

  pub get_comm-Steady : (pid : ℤ) (out : Bytes) → Steady (get_comm os pid out)
  unfolding get_comm
  get_comm-Steady pid out =
      Steady-or_errno os still _ _ _ λ f. search (steady_rules, still) depth 20

  pub get_uid-Steady : (pid : ℤ) → Steady (get_uid os pid)
  unfolding get_uid
  get_uid-Steady pid = Steady-or_errno os still _ _ _ λ f. search (steady_rules) depth 20
