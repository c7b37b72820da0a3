-- ===== src/Samples.antt =====
-- Values for tests: arguments, a victim, a machine at the start, and a kernel.
use earlyoom.Prelude.{true, false, none, some, [], ◌∷◌}
use earlyoom.Prelude.Int.{ℤ, pos}
use earlyoom.Prelude.Text.{Bytes, codes}
use earlyoom.Double.Whole.{Whole, whole_double}
use earlyoom.Args.{Args}
use earlyoom.Machine.{
  stat_file, comm_file, cmdline_file, oom_score_file, oom_score_adj_file, fscanf_int, stat_dir,
  sysconf_pagesize, getpid, fread, kill, getpgid, read_dir, meminfo_file, Os, Reply, Machine,
}
use earlyoom.Prelude.{◌≡◌, refl, Bool}
use earlyoom.Prelude.Text.{cstr, strstr}
use earlyoom.Prelude.Scan.{scan_int}
use earlyoom.Machine.{Machine, done, pure, branch, ◌>>=◌, gets, modify, call}
use earlyoom.Machine.Steady.{Gives}
use earlyoom.MemInfo.{
  parse_meminfo, entry, strtoll, read_meminfo, get_entry, get_entry_fatal, note_errno,
  mem_available_or_guess, mem_info,
}
use earlyoom.MemInfo.{MemInfo}
use earlyoom.Options.{Limits}
use earlyoom.Select.{ProcInfo, zero_procinfo}

-- The defaults, and a dry run with a regular expression and a group.
abbrev pub default_args : Args Whole
default_args = record {
  mem_term_percent = some (pos 10);
  mem_kill_percent = some (pos 5);
  swap_term_percent = some (pos 10);
  swap_kill_percent = some (pos 5);
  notify = true;
  notify_ext = none;
  kill_process_prehook = some (codes "/bin/hook");
  kill_process_group = false;
  ignore_root_user = true;
  sort_by_rss = false;
  prefer_regex = none;
  avoid_regex = none;
  ignore_regex = none;
  report_interval_ms = pos 1000;
  dryrun = false;
  kernel_oom = false;
}

abbrev pub dry_args : Args Whole
dry_args = record default_args { dryrun = true }

abbrev pub nan_args : Args Whole
nan_args = record default_args { mem_term_percent = none; mem_kill_percent = none }

abbrev pub victim_42 : ProcInfo
victim_42 = record zero_procinfo { pid = pos 42; uid = pos 1000; oom_score = pos 666 }

abbrev pub start : Machine
start = record {
  trace = [];
  errno = 0;
  enable_debug = false;
  meminfo_open = false;
  guesstimate_warned = false;
  prev_notify = 0;
}

-- Half of the memory is free, and there is no swap.
abbrev pub roomy : MemInfo Whole
roomy = record {
  mem_total = pos 900;
  mem_available = pos 400;
  swap_total = pos 0;
  swap_free = pos 0;
  anon_pages = pos 400;
  user_mem_total = pos 800;
  mem_available_percent = some (pos 50);
  swap_free_percent = some (pos 0);
}

abbrev pub tight : MemInfo Whole
tight = record roomy { mem_available_percent = some (pos 4) }

abbrev pub roomy_text : Bytes
roomy_text =
    codes
      "MemTotal: 900 kB\nMemAvailable: 400 kB\nAnonPages: 400 kB\nSwapTotal: 0 kB\nSwapFree: 0 kB\n"

abbrev pub reply : ℤ → Reply
reply ret = record { ret = ret; err = 3; text = []; names = []; number = 0; micros = 0 }

-- A kernel of three processes, where every signal arrives.
abbrev pub roomy_os : Os
roomy_os events (fread meminfo_file n) = record (reply (pos 0)) { text = roomy_text }
roomy_os events (kill pid sig) = reply (pos 0)
roomy_os events (getpgid pid) = reply (pos 42)
roomy_os events read_dir = record (reply (pos 0)) {
  names = codes "1" ∷ codes "42" ∷ codes "self" ∷ [];
}
roomy_os events call = reply (pos 0)

-- A kernel that never changes, with one process that may be killed and the program itself, pid 7.
abbrev pub busy_os : Os
busy_os events (fread (stat_file pid) n) = record (reply (pos 0)) {
  text = codes "42 (a b) S 1 1 1 1 1 1 1 1 1 1 1 1 1 1 1 1 3 0 1 1 512 1";
}
busy_os events (fread (comm_file pid) n) = record (reply (pos 0)) { text = codes "ab\n" }
busy_os events (fread (cmdline_file pid) n) = record (reply (pos 0)) { text = codes "ab c\n" }
busy_os events (fscanf_int (oom_score_file pid)) = record (reply (pos 0)) { text = codes "100\n" }
busy_os events (fscanf_int (oom_score_adj_file pid)) = record (reply (pos 0)) { text = codes "0\n" }
busy_os events (stat_dir pid) = record (reply (pos 0)) { number = 1000 }
busy_os events sysconf_pagesize = reply (pos 4096)
busy_os events getpid = reply (pos 7)
busy_os events read_dir = record (reply (pos 0)) {
  names = codes "1" ∷ codes "42" ∷ codes "self" ∷ [];
}
busy_os events call = reply (pos 0)

-- That kernel with 20 kB of memory left, and no swap.
abbrev pub hungry_os : Os
hungry_os events (fread meminfo_file n) = record (reply (pos 0)) {
  text =
      codes
        "MemTotal: 900 kB\nMemAvailable: 20 kB\nAnonPages: 780 kB\nSwapTotal: 0 kB\nSwapFree: 0 kB\n";
}
hungry_os events call = busy_os events call

-- What it reports.
abbrev pub hungry : MemInfo Whole
hungry = record {
  mem_total = pos 900;
  mem_available = pos 20;
  swap_total = pos 0;
  swap_free = pos 0;
  anon_pages = pos 780;
  user_mem_total = pos 800;
  mem_available_percent = some (pos 2);
  swap_free_percent = some (pos 0);
}

-- The limits before the options.
abbrev pub no_limits : Limits Whole
no_limits = record {
  args = default_args;
  have_mem_percent = false;
  have_swap_percent = false;
  have_mem_size = false;
  have_swap_size = false;
  mem_term_kib = some (pos 0);
  mem_kill_kib = some (pos 0);
  swap_term_kib = some (pos 0);
  swap_kill_kib = some (pos 0);
}

-- A look at the memory shows the same whatever the program's state is.
sees_state :
    (m : Machine) (is_open : Bool)
    → m.meminfo_open ≡ is_open
    → (parse_meminfo {W = Whole} hungry_os m).0 ≡ done hungry
unfolding parse_meminfo read_meminfo get_entry_fatal get_entry note_errno entry strtoll strstr
    mem_available_or_guess mem_info pure branch ◌>>=◌ gets modify call cstr scan_int
sees_state m true e = rw e refl
sees_state m false e = rw e refl

pub always_hungry : Gives (parse_meminfo {W = Whole} hungry_os) hungry
always_hungry = record { at = λ m. sees_state m m.meminfo_open refl }
