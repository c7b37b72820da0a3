-- ===== src/Poll/Tests.antt =====
-- The laws of the main loop at a concrete kernel.
use earlyoom.Poll.Enough.{IsSleeper, poll_rounds_enough}
use earlyoom.Prelude.{ℕ, zero, suc, ◌<◌, List, arith, [], ◌≡◌, refl, false, none}
use earlyoom.Prelude.Int.{pos, negsuc}
use earlyoom.Prelude.Text.{cstr, strstr, codes}
use earlyoom.Prelude.Scan.{scan_int}
use earlyoom.Double.Whole.{Whole, whole_double, Whole-IsOrdered}
use earlyoom.Machine.{nanosleep, Event, Os, Machine, done, pure, branch, ◌>>=◌, gets, modify, call}
use earlyoom.Machine.Calls.{Calls, Adds}
use earlyoom.MemInfo.{
  parse_meminfo, entry, strtoll, read_meminfo, get_entry, get_entry_fatal, note_errno,
  mem_available_or_guess, mem_info,
}
use earlyoom.Decide.{lowmem_sig}
use earlyoom.Poll.{poll_round, poll_rounds}
use earlyoom.Poll.Safe.{poll_rounds-IsSafe, IsSafe}
use earlyoom.Machine.Quiet.{IsIdle}
use earlyoom.Poll.Quiet.{poll_round_quiet}
use earlyoom.Machine.Returns.{Returns, Any}
use earlyoom.Options.{Limits, mem_percent, ok, take_limit, merge}
use earlyoom.Poll.Countdown.{IsCountdown, poll_rounds-IsCountdown}
use earlyoom.Poll.Disabled.{mem_nan-disables}
use earlyoom.Samples.{no_limits, default_args, hungry, hungry_os, roomy_os, roomy, start}

poll_rounds-IsSafe_example : Calls (IsSafe false) (poll_rounds roomy_os default_args 3 20 (pos 0))
poll_rounds-IsSafe_example = poll_rounds-IsSafe roomy_os default_args 3 20 (pos 0)

abbrev looked : Machine
looked = (parse_meminfo {W = Whole} roomy_os start).1

sees_roomy : parse_meminfo roomy_os start ≡ (done roomy, looked)
unfolding parse_meminfo read_meminfo get_entry_fatal get_entry note_errno entry strtoll strstr
    mem_available_or_guess mem_info pure branch ◌>>=◌ gets modify call cstr scan_int
sees_roomy = refl

poll_round_quiet_example : Adds IsIdle [] (poll_round roomy_os default_args 3 (pos 0) start).1.trace
unfolding lowmem_sig
poll_round_quiet_example =
    poll_round_quiet roomy_os default_args 3 (pos 0) start looked roomy sees_roomy refl

-- Each sleep is interrupted in its first nanosecond.
abbrev drowsy_os : Os
drowsy_os events (nanosleep (suc ms)) = record (roomy_os events (nanosleep (suc ms))) {
  ret = negsuc 0;
  err = 4;
  number = ms;
}
drowsy_os events call = roomy_os events call

drowsy-IsSleeper : IsSleeper drowsy_os
drowsy-IsSleeper = record { left = less }
  where
    less :
        (t : List Event) (ms : ℕ)
        → (drowsy_os t (nanosleep ms)).ret ≡ negsuc 0
        → (drowsy_os t (nanosleep ms)).err ≡ 4
        → (drowsy_os t (nanosleep ms)).number < ms
    less t zero h e = absurd (ground arith)
    less t (suc ms) h e = omega arith

poll_rounds_enough_example :
    poll_rounds drowsy_os default_args 1_000_000_000 20 (pos 0)
    ≡ poll_rounds drowsy_os default_args 5_000_000_000 20 (pos 0)
poll_rounds_enough_example =
    poll_rounds_enough drowsy_os drowsy-IsSleeper default_args 1_000_000_000 5_000_000_000
      (omega arith) (omega arith) 20 (pos 0)

poll_rounds-IsCountdown_example :
    Returns (IsCountdown 1000 20) Any (poll_rounds roomy_os default_args 3 20 (pos 0))
poll_rounds-IsCountdown_example =
    poll_rounds-IsCountdown roomy_os default_args 1000 refl (omega arith) 3 20 (omega arith)

mem_nan-disables_example :
    (l' : Limits Whole) × (take_limit hungry (mem_percent (codes "nan")) no_limits ≡ ok l')
    × Calls IsIdle (poll_rounds hungry_os (merge hungry l') 3 20 (pos 0))
mem_nan-disables_example =
    mem_nan-disables Whole-IsOrdered hungry_os hungry no_limits (codes "nan") none 3 20
      (omega arith) (omega arith) refl (λ e. cc) refl
