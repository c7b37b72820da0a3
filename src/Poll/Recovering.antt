-- ===== src/Poll/Recovering.antt =====
-- A round at a concrete kernel where memory is low until the processes are listed.
use earlyoom.Prelude.{◌≡◌, refl, arith, Bool, true, false, List, [], ◌∷◌, if◌then◌else◌}
use earlyoom.Prelude.Int.{pos}
use earlyoom.Prelude.Text.{cstr, strstr, strrchr, scan_digits, codes}
use earlyoom.Prelude.Scan.{scan_int, sscanf}
use earlyoom.Double.Whole.{Whole, whole_double}
use earlyoom.Machine.{
  meminfo_file, fread, read_dir, Event, Os, Machine, pure, branch, ◌>>=◌, gets, modify, call, say,
}
use earlyoom.Machine.Calls.{Adds}
use earlyoom.Machine.Quiet.{IsIdle}
use earlyoom.MemInfo.{
  parse_meminfo, entry, strtoll, read_meminfo, get_entry, get_entry_fatal, note_errno,
  mem_available_or_guess, mem_info,
}
use earlyoom.Decide.{lowmem_sig}
use earlyoom.Select.{
  find_largest_process, ProcInfo, isnumeric, scan_names, consider, is_larger, measure, check_pid,
  check_root, check_kernel_thread, check_name, read_stat, take_stat, read_oom_score, check_adj,
  compare_with, not_larger_by_score, debug_print_procinfo, fill_informative_fields, ◌▸◌,
}
use earlyoom.ProcPid.{parse_proc_pid_stat_buf}
use earlyoom.Proc.{
  parse_proc_pid_stat, get_oom_score, get_oom_score_adj, read_proc_file_integer, scanned, get_uid,
  get_comm, get_cmdline, comm_text, cmdline_text,
}
use earlyoom.Utf8.{fix_truncated_utf8}
use earlyoom.Poll.{warn_low, poll_round}
use earlyoom.Poll.Quiet.{RecoveredRound, poll_round_spares}
use earlyoom.Samples.{default_args, hungry, hungry_os, roomy, roomy_os, start}

abbrev was_listed : List Event → Bool
was_listed [] = false
was_listed ((read_dir, r) ∷ events) = true
was_listed ((c, r) ∷ events) = was_listed events

abbrev recovering_os : Os
recovering_os events (fread meminfo_file n) =
    if was_listed events
    then roomy_os events (fread meminfo_file n)
    else hungry_os events (fread meminfo_file n)
recovering_os events call = hungry_os events call

abbrev looked : Machine
looked = (parse_meminfo {W = Whole} recovering_os start).1

abbrev warned : Machine
warned = (warn_low recovering_os default_args 9 looked).1

abbrev chosen : Machine
chosen = (find_largest_process recovering_os default_args warned).1

abbrev victim : ProcInfo
victim = record {
  pid = pos 42;
  uid = pos 1000;
  oom_score = pos 100;
  oom_score_adj = pos 0;
  vm_rss = pos 2048;
  stat = record { state = b'S'; ppid = pos 1; num_threads = pos 3; rss = pos 512 };
  name = codes "ab";
  cmdline = codes "ab c";
}

abbrev after : Machine
after = (parse_meminfo {W = Whole} recovering_os chosen).1

hungry_low : lowmem_sig default_args hungry ≡ 9
unfolding lowmem_sig
hungry_low = refl

recovering-RecoveredRound : RecoveredRound recovering_os default_args start
unfolding find_largest_process scan_names consider is_larger measure check_pid check_root
    check_kernel_thread check_name read_stat take_stat read_oom_score check_adj compare_with
    not_larger_by_score debug_print_procinfo fill_informative_fields ◌▸◌ parse_proc_pid_stat
    parse_proc_pid_stat_buf get_oom_score get_oom_score_adj read_proc_file_integer scanned get_uid
    get_comm get_cmdline comm_text cmdline_text fix_truncated_utf8 call pure branch ◌>>=◌ gets
    modify say cstr scan_int sscanf strrchr isnumeric scan_digits warn_low parse_meminfo
    read_meminfo get_entry_fatal get_entry note_errno entry strtoll strstr mem_available_or_guess
    mem_info lowmem_sig
recovering-RecoveredRound = record {
  memory = hungry;
  recovered = roomy;
  looked = looked;
  warned = warned;
  chosen = chosen;
  looked_again = after;
  victim = victim;
  looks = refl;
  is_low = λ e. absurd (omega (arith, e, hungry_low));
  warns = refl;
  finds = refl;
  looks_again = refl;
  has_recovered = refl;
}

poll_round_spares_example :
    Adds IsIdle [] (poll_round recovering_os default_args 3 (pos 0) start).1.trace
poll_round_spares_example =
    poll_round_spares recovering_os default_args 3 (pos 0) start refl recovering-RecoveredRound
