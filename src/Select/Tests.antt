-- ===== src/Select/Tests.antt =====
-- The laws of the choice at a concrete kernel.
use earlyoom.Double.Whole.{whole_double, Whole}
use earlyoom.Machine.Returns.{Returns, Any}
use earlyoom.Select.{find_largest_process}
use earlyoom.Select.Victim.{IsVictim, find_largest_process-IsVictim}
use earlyoom.Prelude.{◌≡◌, refl, ap, true, false, [], inl, inr, ◌∈◌, arith}
use earlyoom.Prelude.Int.{pos, ◌<ℤ◌}
use earlyoom.Prelude.Text.{Bytes, codes}
use earlyoom.Machine.{Machine, done, Action}
use earlyoom.Machine.Steady.{IsStill, Gives, Gives-unique}
use earlyoom.Args.{Args}
use earlyoom.Select.{
  field_not_set, Verdict, ProcInfo, fresh, isnumeric, scan_names, consider, is_larger, measure,
  check_pid, check_root, check_kernel_thread, check_name, read_stat, take_stat, read_oom_score,
  check_adj, compare_with, warn_zombie, not_larger_by_score, debug_print_procinfo,
  fill_informative_fields, ◌▸◌, adjust,
}
use earlyoom.ProcPid.{parse_proc_pid_stat_buf}
use earlyoom.Proc.{
  parse_proc_pid_stat, get_oom_score, get_oom_score_adj, read_proc_file_integer, scanned, get_uid,
  get_comm, get_cmdline, comm_text, cmdline_text,
}
use earlyoom.Utf8.{fix_truncated_utf8}
use earlyoom.Prelude.Text.{cstr, strrchr, scan_digits}
use earlyoom.Prelude.Scan.{scan_int, sscanf}
use earlyoom.Machine.{call, pure, branch, ◌>>=◌, gets, modify, say}
use earlyoom.Select.Eligible.{eligible}
use earlyoom.Select.Largest.{Candidate, Chosen}
use earlyoom.Select.Order.{◌⊒◌}
use earlyoom.Select.Selected.{names_of, Winner}
use earlyoom.Select.Best.{
  find_largest_process-largest, find_largest_process-Chosen, find_largest_process-finds,
}
use mathlib.Core.Path.{subst}
use earlyoom.Select.Rss.{AllResident, IsMost, find_largest_process-IsMost}
use earlyoom.Samples.{start, busy_os, default_args, roomy_os}

find_largest_process-IsVictim_example :
    Returns (IsVictim roomy_os default_args) Any (find_largest_process roomy_os default_args)
find_largest_process-IsVictim_example = find_largest_process-IsVictim roomy_os default_args

-- Process 42 as the checks fill it in, and as it is returned.
abbrev measured_42 : ProcInfo
measured_42 = record {
  pid = pos 42;
  uid = pos 1000;
  oom_score = pos 100;
  oom_score_adj = pos 0;
  vm_rss = pos 2048;
  stat = record { state = b'S'; ppid = pos 1; num_threads = pos 3; rss = pos 512 };
  name = [];
  cmdline = [];
}

abbrev named_42 : ProcInfo
named_42 = record measured_42 { name = codes "ab"; cmdline = codes "ab c" }

passes_42 :
    Gives
      (eligible busy_os default_args (fresh busy_os default_args (codes "42")))
      (true, measured_42)
unfolding eligible measure is_larger check_pid check_root check_kernel_thread check_name read_stat
    take_stat read_oom_score check_adj ◌▸◌ parse_proc_pid_stat parse_proc_pid_stat_buf get_oom_score
    get_oom_score_adj read_proc_file_integer scanned get_uid call pure branch ◌>>=◌ gets modify say
    cstr scan_int sscanf strrchr isnumeric scan_digits adjust
passes_42 = record { at = λ m. refl }

Candidate-42 : Candidate busy_os default_args (codes "42") measured_42
unfolding isnumeric
Candidate-42 = record { numeric = refl; passes = passes_42 }

abbrev searched : Machine
searched = (find_largest_process busy_os default_args start).1

finds_42 : find_largest_process busy_os default_args start ≡ (done named_42, searched)
unfolding find_largest_process scan_names consider is_larger measure check_pid check_root
    check_kernel_thread check_name read_stat take_stat read_oom_score check_adj compare_with
    not_larger_by_score debug_print_procinfo fill_informative_fields ◌▸◌ parse_proc_pid_stat
    parse_proc_pid_stat_buf get_oom_score get_oom_score_adj read_proc_file_integer scanned get_uid
    get_comm get_cmdline comm_text cmdline_text fix_truncated_utf8 call pure branch ◌>>=◌ gets
    modify say cstr scan_int sscanf strrchr isnumeric scan_digits
finds_42 = refl

busy-IsStill : IsStill busy_os
busy-IsStill = record { same = λ t u c. refl }

listed_42 : codes "42" ∈ names_of busy_os
listed_42 = inr (inl refl)

find_largest_process-largest_example : named_42 ⊒ measured_42
find_largest_process-largest_example =
    find_largest_process-largest busy_os default_args refl busy-IsStill named_42 start searched
      (codes "42") measured_42 finds_42 (omega arith) listed_42 Candidate-42

find_largest_process-Chosen_example : Chosen busy_os default_args (names_of busy_os) named_42
find_largest_process-Chosen_example =
    find_largest_process-Chosen busy_os default_args refl busy-IsStill named_42 start searched
      finds_42 (omega arith)

find_largest_process-finds_example :
    (w : Winner busy_os default_args named_42) × (w.winner ⊒ measured_42)
find_largest_process-finds_example =
    find_largest_process-finds busy_os default_args refl busy-IsStill named_42 start searched
      (codes "42") measured_42 finds_42 listed_42 Candidate-42

-- The same kernel with --sort-by-rss.
abbrev rss_args : Args Whole
rss_args = record default_args { sort_by_rss = true }

-- What the checks before the comparison say of the two names.
judge_42 :
    Gives
      (measure busy_os rss_args (fresh busy_os rss_args (codes "42")))
      (true, record measured_42 { oom_score_adj = field_not_set })
unfolding eligible measure is_larger check_pid check_root check_kernel_thread check_name read_stat
    take_stat read_oom_score check_adj ◌▸◌ parse_proc_pid_stat parse_proc_pid_stat_buf get_oom_score
    get_oom_score_adj read_proc_file_integer scanned get_uid call pure branch ◌>>=◌ gets modify say
    cstr scan_int sscanf strrchr isnumeric scan_digits adjust
judge_42 = record { at = λ m. refl }

judge_1 :
    Gives
      (measure busy_os rss_args (fresh busy_os rss_args (codes "1")))
      (false, fresh busy_os rss_args (codes "1"))
unfolding eligible measure is_larger check_pid check_root check_kernel_thread check_name read_stat
    take_stat read_oom_score check_adj ◌▸◌ parse_proc_pid_stat parse_proc_pid_stat_buf get_oom_score
    get_oom_score_adj read_proc_file_integer scanned get_uid call pure branch ◌>>=◌ gets modify say
    cstr scan_int sscanf strrchr isnumeric scan_digits adjust
judge_1 = record { at = λ m. refl }

judge_self :
    Gives
      (measure busy_os rss_args (fresh busy_os rss_args (codes "self")))
      (false, fresh busy_os rss_args (codes "self"))
unfolding eligible measure is_larger check_pid check_root check_kernel_thread check_name read_stat
    take_stat read_oom_score check_adj ◌▸◌ parse_proc_pid_stat parse_proc_pid_stat_buf get_oom_score
    get_oom_score_adj read_proc_file_integer scanned get_uid call pure branch ◌>>=◌ gets modify say
    cstr scan_int sscanf strrchr isnumeric scan_digits adjust
judge_self = record { at = λ m. refl }

refused_once : {x : Action Verdict} {c0 c : ProcInfo} → Gives x (false, c0) → Gives x (true, c) → ⊥
refused_once g h = let e : false ≡ true = ap (λ v. v.0) (Gives-unique start g h) in cc

abbrev Judged : ProcInfo → Bytes → Type 0
Judged c name = Gives (measure busy_os rss_args (fresh busy_os rss_args name)) (true, c)

all_resident : AllResident busy_os rss_args
all_resident name (inl e) c g = absurd (refused_once judge_1 (subst (Judged c) e g))
all_resident name (inr (inl e)) c g =
    let same = ap (λ v. v.1) (Gives-unique start judge_42 (subst (Judged c) e g)) in
    subst (λ k. pos 0 <ℤ k.vm_rss) same (omega arith)
all_resident name (inr (inr (inl e))) c g = absurd (refused_once judge_self (subst (Judged c) e g))
all_resident name (inr (inr (inr none_left))) c g = absurd none_left

passes_rss_42 :
    Gives (eligible busy_os rss_args (fresh busy_os rss_args (codes "42"))) (true, measured_42)
unfolding eligible measure is_larger check_pid check_root check_kernel_thread check_name read_stat
    take_stat read_oom_score check_adj ◌▸◌ parse_proc_pid_stat parse_proc_pid_stat_buf get_oom_score
    get_oom_score_adj read_proc_file_integer scanned get_uid call pure branch ◌>>=◌ gets modify say
    cstr scan_int sscanf strrchr isnumeric scan_digits adjust
passes_rss_42 = record { at = λ m. refl }

Candidate-rss_42 : Candidate busy_os rss_args (codes "42") measured_42
unfolding isnumeric
Candidate-rss_42 = record { numeric = refl; passes = passes_rss_42 }

abbrev searched_rss : Machine
searched_rss = (find_largest_process busy_os rss_args start).1

finds_rss_42 : find_largest_process busy_os rss_args start ≡ (done named_42, searched_rss)
unfolding find_largest_process scan_names consider is_larger measure check_pid check_root
    check_kernel_thread check_name read_stat take_stat read_oom_score check_adj compare_with
    warn_zombie not_larger_by_score debug_print_procinfo fill_informative_fields ◌▸◌
    parse_proc_pid_stat parse_proc_pid_stat_buf get_oom_score get_oom_score_adj
    read_proc_file_integer scanned get_uid get_comm get_cmdline comm_text cmdline_text
    fix_truncated_utf8 call pure branch ◌>>=◌ gets modify say cstr scan_int sscanf strrchr isnumeric
    scan_digits
finds_rss_42 = refl

find_largest_process-IsMost_example : IsMost busy_os rss_args named_42 measured_42
find_largest_process-IsMost_example =
    find_largest_process-IsMost busy_os rss_args refl busy-IsStill all_resident named_42 start
      searched_rss (codes "42") measured_42 finds_rss_42 listed_42 Candidate-rss_42
