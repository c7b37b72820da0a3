-- ===== src/Proc/Nets.antt =====
-- The readers of /proc/$pid in meminfo.c and proc_pid.c: their files.
use earlyoom.Prelude.{ℕ}
use earlyoom.Prelude.Int.{ℤ}
use earlyoom.Prelude.Text.{Bytes}
use earlyoom.Machine.{ProcFile, oom_score_file, oom_score_adj_file, Os}
use earlyoom.Machine.Nets.{
  Weight, IsOther, Stays, Stays-bind, Nets-bind, Stays-call, Nets-branch, Nets-fclose, Stays-say,
  Stays-pure, stays_rules,
}
use earlyoom.Machine.Nets.Opens.{Nets-fopen}
use earlyoom.Proc.{
  parse_proc_pid_stat, read_proc_file_integer, get_oom_score, get_oom_score_adj, get_comm,
  get_cmdline, get_uid,
}

module _ (os : Os) {w : Weight} {n : ℕ} where
  pub parse_proc_pid_stat-Nets : (pid : ℤ) → Stays w n (parse_proc_pid_stat os pid)
  unfolding parse_proc_pid_stat
  parse_proc_pid_stat-Nets pid =
      Nets-fopen os (λ f. search (stays_rules) depth 14) _
        (λ f.
          Nets-bind (Stays-call os _ tt)
            λ r. Nets-bind (Nets-fclose os _) λ _. search (stays_rules) depth 14)
        tt

  read_proc_file_integer-Nets :
      (file : ProcFile) (out : ℤ) → IsOther file → Stays w n (read_proc_file_integer os file out)
  unfolding read_proc_file_integer
  read_proc_file_integer-Nets file out h =
      Nets-fopen os (λ f. search (stays_rules) depth 14) _
        (λ f. Nets-bind (Stays-call os _ tt) λ r. Nets-bind (Nets-fclose os _) λ _. Stays-pure _) h

  pub get_oom_score-Nets : (pid : ℤ) → Stays w n (get_oom_score os pid)
  unfolding get_oom_score
  get_oom_score-Nets pid =
      Stays-bind (read_proc_file_integer-Nets (oom_score_file pid) _ tt) λ r. Stays-pure _

  pub get_oom_score_adj-Nets : (pid out : ℤ) → Stays w n (get_oom_score_adj os pid out)
  unfolding get_oom_score_adj
  get_oom_score_adj-Nets pid out = read_proc_file_integer-Nets (oom_score_adj_file pid) out tt

  pub get_comm-Nets : (pid : ℤ) (out : Bytes) → Stays w n (get_comm os pid out)
  unfolding get_comm
  get_comm-Nets pid out =
      Nets-fopen os (λ f. search (stays_rules) depth 14) _
        (λ f. Nets-bind (Stays-call os _ tt) λ r.
          Nets-branch
            (λ _. Nets-bind (Stays-say os _) λ _. Nets-bind (Nets-fclose os _) λ _. Stays-pure _)
            λ _. Nets-bind (Nets-fclose os _) λ _. search (stays_rules) depth 14)
        tt

  pub get_cmdline-Nets : (pid : ℤ) (out : Bytes) → Stays w n (get_cmdline os pid out)
  unfolding get_cmdline
  get_cmdline-Nets pid out =
      Nets-fopen os (λ f. search (stays_rules) depth 14) _
        (λ f. Nets-bind (Stays-call os _ tt) λ r.
          Nets-branch
            (λ _. Nets-bind (Stays-say os _) λ _. Nets-bind (Nets-fclose os _) λ _. Stays-pure _)
            λ _. Nets-bind (Nets-fclose os _) λ _. Stays-pure _)
        tt

  pub get_uid-Nets : (pid : ℤ) → Stays w n (get_uid os pid)
  unfolding get_uid
  get_uid-Nets pid = search (stays_rules) depth 14
