-- ===== src/Lib.antt =====
-- earlyoom: a daemon that watches the free memory and swap, and kills a process before the machine
-- runs out of them.
--
-- The program and its files:
--   * main.c reads the options, tests itself and then runs `poll_loop`: look at the memory, decide on a
--     signal, choose a victim, look again, kill, sleep. Main models `main` with the switch over the
--     options, Options the limits that -m, -s, -M and -S set, Startup what comes between the options and
--     the loop (`startup_selftests`, `set_oom_score_adj`, the priority, `mlockall`), Poll the loop
--     (`poll_round` is one pass through it), Decide its two decisions, `lowmem_sig` and
--     `sleep_time_ms`, Sigchld the signal handler, and Args the settings (kill.h).
--   * meminfo.c reads /proc/meminfo (MemInfo) and /proc/$pid (Proc).
--   * proc_pid.c parses /proc/$pid/stat (ProcPid; `parse_proc_pid_stat` is in Proc).
--   * kill.c chooses the victim (Select, with the record of a process in Select.Info) and kills it
--     (Kill), with notifications before and after (Kill.Notify).
--   * msg.c parses the option values of -m, -s, -M and -S (TermKill), cuts text at UTF-8 boundaries
--     (Utf8) and prints, with colours or to the system log (Messages).
--   * contrib/ has test programs, each a process of its own (Contrib): membomb/eat_all_memory.c with
--     the four programs that call it (Contrib.Membomb), membomb/keep_active.c (Contrib.KeepActive),
--     mmap_test/mmap_test.c (Contrib.MmapTest), zombie.c (Contrib.Zombie) and
--     libproc2-test/libproc2-test.c (Contrib.Libproc2).
--
-- How they are modelled: the parsers and decisions are functions. Code that calls the kernel is an
-- `Action` of Machine: it takes the machine's state, which holds the calls made so far with their
-- replies, `errno` and the program's global and static variables, to a result and the state after
-- it. The kernel is any function `Os` from the calls so far and the present call to a reply, so the
-- world may change between two calls. Some statements assume a law of it, by name: `IsStill`, that
-- it stands still while a victim is chosen, `IsSleeper`, that an interrupted sleep leaves less
-- time, `HasChildren`, that finitely many children end, `IsPlain`, that `pidfd_open` gives a
-- descriptor or -1, and `ExemptsItself`, that the program is none of the processes that pass its
-- own checks. What C gives through a pointer is part of the value.
--
-- Under Machine are the rules for what an action returns (Machine.Returns), for the calls that it
-- makes (Machine.Calls) and for a call that it is sure to make (Machine.Sends), for going on to its
-- end (Machine.Passes) and for the statuses with which it ends the process (Machine.Exits), for
-- what it holds open (Machine.Nets) and how long it sleeps (Machine.Sleeps), for a kernel that
-- stands still (Machine.Steady), and for what its parts did where it went on to its end
-- (Machine.Runs).
--
-- `double` is a parameter, an instance of Double with the laws of IEEE 754 that the proofs use;
-- Double.Whole shows that they can hold, with whole numbers and a NaN. `strtod` belongs to that
-- instance, and `regexec` is a test in the settings. `getopt_long` gives the list of options, and
-- `strtof` and `regcomp` are fields of Main.Clib. `getenv`, `isatty` and the formatting of a
-- message are parameters of Messages. `strtoll`, `strstr`, `strchr`, `strrchr`, `isdigit` and the
-- `sscanf` conversions used are functions of Prelude. Integers are unbounded except where the
-- source narrows: to `int` and `pid_t` (wrapped at 32 bits) and `strtoll` (clamped, with ERANGE).
-- Sleeps are in nanoseconds. A division by 0 in the programs of contrib/, which C leaves undefined, is
-- a call whose reply says whether it traps or what it gives.
--
-- Bounds: `wait_rounds` counts the 100 rounds of the source's own loop. `decimal` prints a number with
-- 20 digits of fuel, enough for any 64-bit value. The main loop never returns, so `poll_rounds` runs any
-- number of its rounds. A sleep that signals interrupt is resumed at most `interrupts` times, and the
-- handler of SIGCHLD runs for at most so many rounds; the source sets no bound on either, and
-- Poll.Enough and Sigchld.Ends say which numbers are enough. The loops of keep_active and mmap_test
-- have fuel, of which Contrib.KeepActive.Ends and Contrib.MmapTest.Inside say the same, and membomb,
-- which never returns either, runs any number of its rounds.
--
-- Select.Ranking holds what the choice of a victim needs of its order, for the order by oom_score
-- (Select.Best) and that by rss (Select.Rss).
--
-- Not modelled: the text of messages outside Messages, -d messages, and what becomes of the output in
-- the rest of the program, where a message is one call of `print`; --syslog outside Messages; the
-- moments at which the handler of SIGCHLD runs, but for one in the middle of `get_entry`
-- (Sigchld.Race); `prctl`, `signal` and `setlinebuf`, whose results
-- `main` does not look at; the profiling loop under an #ifdef; `print_mem_stats`, which only prints; the
-- threads of membomb.subthread.c at once; contrib/oomstat and the scripts, which are not C; the tests.
pub mod Prelude
pub mod Double
pub mod Machine
pub mod Args
pub mod Utf8
pub mod TermKill
pub mod ProcPid
pub mod Proc
pub mod MemInfo
pub mod Decide
pub mod Select
pub mod Kill
pub mod Options
pub mod Poll
pub mod Samples
pub mod Startup
pub mod Main
pub mod Messages
pub mod Sigchld
pub mod Contrib
