-- ===== src/Poll/Hungry.antt =====
-- A round on low memory at a concrete kernel.
use mathlib.Core.Path.{subst}
use earlyoom.Prelude.{◌≢◌, ◌≡◌, refl, ap, none, [], arith, true, false, inl, inr}
use earlyoom.Prelude.Int.{pos}
use earlyoom.Prelude.Text.{Bytes, cstr, strstr, strrchr, scan_digits, codes}
use earlyoom.Prelude.Scan.{scan_int, sscanf}
use earlyoom.Double.Whole.{Whole, whole_double}
use earlyoom.Args.{Args}
use earlyoom.Machine.{kill, Machine, done, pure, branch, ◌>>=◌, gets, modify, call, say}
use earlyoom.Machine.Sends.{Did}
use earlyoom.MemInfo.{
  parse_meminfo, entry, strtoll, read_meminfo, get_entry, get_entry_fatal, note_errno,
  mem_available_or_guess, mem_info,
}
use earlyoom.Decide.{lowmem_sig}
use earlyoom.Select.{
  find_largest_process, ProcInfo, fresh, isnumeric, scan_names, consider, is_larger, measure,
  check_pid, check_root, check_kernel_thread, check_name, read_stat, take_stat, read_oom_score,
  check_adj, compare_with, not_larger_by_score, debug_print_procinfo, fill_informative_fields, ◌▸◌,
}
use earlyoom.ProcPid.{parse_proc_pid_stat_buf}
use earlyoom.Proc.{
  parse_proc_pid_stat, get_oom_score, get_oom_score_adj, read_proc_file_integer, scanned, get_uid,
  get_comm, get_cmdline, comm_text, cmdline_text,
}
use earlyoom.Utf8.{fix_truncated_utf8}
use earlyoom.Poll.{warn_low, poll_round}
use earlyoom.Poll.Largest.{KillsLargest, poll_round-KillsLargest}
use earlyoom.Machine.Steady.{IsStill, Gives, Gives-unique}
use earlyoom.Select.Eligible.{eligible}
use earlyoom.Select.Largest.{Candidate}
use earlyoom.Select.Selected.{ExemptsItself}
use earlyoom.Poll.Reaches.{LowRound, poll_round-Did}
use earlyoom.Samples.{always_hungry, default_args, hungry, hungry_os, start}

abbrev bare_args : Args Whole
bare_args = record default_args { kill_process_prehook = none }

abbrev looked : Machine
looked = (parse_meminfo {W = Whole} hungry_os start).1

abbrev warned : Machine
warned = (warn_low hungry_os bare_args 9 looked).1

abbrev chosen : Machine
chosen = (find_largest_process hungry_os bare_args warned).1

abbrev victim : ProcInfo
victim = record {
  pid = pos 42;
  uid = pos 1000;
  oom_score = pos 100;
  oom_score_adj = pos 0;
  vm_rss = pos 2048;
  stat = record { state = b'S'; ppid = pos 1; num_threads = pos 3; rss = pos 512 };
  name = codes "ab";
  cmdline = codes "ab c";
}

sees_hungry : parse_meminfo hungry_os start ≡ (done hungry, looked)
unfolding parse_meminfo read_meminfo get_entry_fatal get_entry note_errno entry strtoll strstr
    mem_available_or_guess mem_info pure branch ◌>>=◌ gets modify call cstr scan_int
sees_hungry = refl

warns_hungry : warn_low hungry_os bare_args 9 looked ≡ (done tt, warned)
unfolding warn_low pure branch ◌>>=◌ say
warns_hungry = refl

finds_victim : find_largest_process hungry_os bare_args warned ≡ (done victim, chosen)
unfolding find_largest_process scan_names consider is_larger measure check_pid check_root
    check_kernel_thread check_name read_stat take_stat read_oom_score check_adj compare_with
    not_larger_by_score debug_print_procinfo fill_informative_fields ◌▸◌ parse_proc_pid_stat
    parse_proc_pid_stat_buf get_oom_score get_oom_score_adj read_proc_file_integer scanned get_uid
    get_comm get_cmdline comm_text cmdline_text fix_truncated_utf8 call pure branch ◌>>=◌ gets
    modify say cstr scan_int sscanf strrchr isnumeric scan_digits warn_low parse_meminfo
    read_meminfo get_entry_fatal get_entry note_errno entry strtoll strstr mem_available_or_guess
    mem_info
finds_victim = refl

abbrev after : Machine
after = (parse_meminfo {W = Whole} hungry_os chosen).1

sees_hungry_again : parse_meminfo hungry_os chosen ≡ (done hungry, after)
unfolding find_largest_process scan_names consider is_larger measure check_pid check_root
    check_kernel_thread check_name read_stat take_stat read_oom_score check_adj compare_with
    not_larger_by_score debug_print_procinfo fill_informative_fields ◌▸◌ parse_proc_pid_stat
    parse_proc_pid_stat_buf get_oom_score get_oom_score_adj read_proc_file_integer scanned get_uid
    get_comm get_cmdline comm_text cmdline_text fix_truncated_utf8 call pure branch ◌>>=◌ gets
    modify say cstr scan_int sscanf strrchr isnumeric scan_digits warn_low parse_meminfo
    read_meminfo get_entry_fatal get_entry note_errno entry strtoll strstr mem_available_or_guess
    mem_info
sees_hungry_again = refl

hungry_low : lowmem_sig bare_args hungry ≡ 9
unfolding lowmem_sig
hungry_low = refl

hungry-LowRound : LowRound hungry_os bare_args start
hungry-LowRound = record {
  memory = hungry;
  still = hungry;
  looked = looked;
  warned = warned;
  chosen = chosen;
  looked_again = after;
  victim = victim;
  looks = sees_hungry;
  is_low = λ e. absurd (omega (arith, e, hungry_low));
  warns = rw hungry_low warns_hungry;
  finds = finds_victim;
  is_found = omega arith;
  looks_again = sees_hungry_again;
  is_still_low = λ e. absurd (omega (arith, e, hungry_low));
}

poll_round-Did_example :
    Did
      (kill (pos 42) (lowmem_sig bare_args hungry))
      []
      (poll_round hungry_os bare_args 3 (pos 0) start).1.trace
unfolding hungry-LowRound
poll_round-Did_example =
    poll_round-Did hungry_os bare_args 3 (pos 0) start refl refl refl refl hungry-LowRound

-- The same round as a whole, at a kernel that stands still.
hungry-IsStill : IsStill hungry_os
hungry-IsStill = record { same = λ t u c. refl }

abbrev measured_42 : ProcInfo
measured_42 = record victim { name = []; cmdline = [] }

passes_42 :
    Gives
      (eligible hungry_os bare_args (fresh hungry_os bare_args (codes "42")))
      (true, measured_42)
unfolding eligible measure is_larger check_pid check_root check_kernel_thread check_name read_stat
    take_stat read_oom_score check_adj ◌▸◌ parse_proc_pid_stat parse_proc_pid_stat_buf get_oom_score
    get_oom_score_adj read_proc_file_integer scanned get_uid call pure branch ◌>>=◌ gets modify say
    cstr scan_int sscanf strrchr isnumeric scan_digits
passes_42 = record { at = λ m. refl }

refuses_1 :
    Gives
      (eligible hungry_os bare_args (fresh hungry_os bare_args (codes "1")))
      (false, fresh hungry_os bare_args (codes "1"))
unfolding eligible measure check_pid ◌▸◌ pure branch ◌>>=◌ scan_digits
refuses_1 = record { at = λ m. refl }

Candidate-42 : Candidate hungry_os bare_args (codes "42") measured_42
unfolding isnumeric
Candidate-42 = record { numeric = refl; passes = passes_42 }

abbrev Listed : ProcInfo → Bytes → Type 0
Listed c name = Candidate hungry_os bare_args name c

refused_1 : (c : ProcInfo) → Listed c (codes "1") → ⊥
refused_1 c k = let e : false ≡ true = ap (λ v. v.0) (Gives-unique start refuses_1 k.passes) in cc

not_7 : (c : ProcInfo) → Listed c (codes "42") → c.pid ≢ pos 7
not_7 c k own =
    let e = ap (λ v. v.1.pid) (Gives-unique start passes_42 k.passes) in absurd (ground arith)

no_number : (c : ProcInfo) → Listed c (codes "self") → ⊥
unfolding isnumeric
no_number c k = let e : false ≡ true = k.numeric in cc

-- The program itself is process 7, which is not listed.
exempt : ExemptsItself hungry_os bare_args
exempt name c (inl e) k own = refused_1 c (subst (Listed c) e k)
exempt name c (inr (inl e)) k own = not_7 c (subst (Listed c) e k) own
exempt name c (inr (inr (inl e))) k own = no_number c (subst (Listed c) e k)
exempt name c (inr (inr (inr none_left))) k own = absurd none_left

poll_round-KillsLargest_example :
    KillsLargest hungry_os bare_args
      (lowmem_sig bare_args hungry)
      start
      (poll_round hungry_os bare_args 3 (pos 0) start).1
poll_round-KillsLargest_example =
    poll_round-KillsLargest hungry_os bare_args hungry-IsStill refl hungry always_hungry
      (λ e. absurd (omega (arith, e, hungry_low))) refl exempt (codes "42") measured_42
      (inr (inl refl)) Candidate-42 3 (pos 0) start refl refl refl refl
