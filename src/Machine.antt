-- ===== src/Machine.antt =====
-- The program beside the kernel. What the kernel and the files under /proc answer is unknown: it is a
-- function `Os` of all that was asked before and of the present call, so the world may change between
-- any two calls. A machine keeps the calls with their answers, the newest first, and the program's
-- own global and static variables. Code that may end the process is an `Action`.
--
-- A path under /proc that the source prints into a buffer is a value of `ProcFile`; a buffer of
-- PATH_LEN bytes holds each of them. Messages to the user are calls of `print` without their text.
-- Debug messages, which are off unless -d is given, are left out.
pub mod Calls
pub mod Returns
pub mod Exits
pub mod Quiet
pub mod Runs
pub mod Sleeps
pub mod Steady
pub mod Passes
pub mod Sends
pub mod Nets
use earlyoom.Prelude.{ℕ, ◌≡◌, Bool, true, false, Option, none, some, List, [], ◌∷◌, if◌then◌else◌}
use earlyoom.Prelude.Int.{ℤ, pos, neg, ltb_ℤ}
use earlyoom.Prelude.Text.{Bytes}

pub data ProcFile : Type 0 where
  meminfo_file sysrq_trigger_file : ProcFile
  stat_file comm_file cmdline_file oom_score_file oom_score_adj_file : ℤ → ProcFile

pub data Level : Type 0 where
  warn_level info_level : Level

-- The calls that only the programs under contrib/ make.
pub data ToolCall : Type 0 where
  -- so many bytes: the result is an address, 0 (`malloc`) or -1 (`mmap`) where there is none
  malloc mmap_anonymous : ℤ → ToolCall
  -- a size and a descriptor
  mmap_shared mmap_private : ℤ → ℤ → ToolCall
  munmap : ℤ → ℤ → ToolCall
  -- a byte at an address, which faults where the result is below 0, with the signal in `err`
  store : ℤ → ℕ → ToolCall
  load : ℤ → ToolCall
  -- `mkstemp` writes the file's name over the template: it is `text`
  mkstemp unlink open_rdwr : Bytes → ToolCall
  -- the size is `number`
  fstat fsync : ℤ → ToolCall
  -- a descriptor, and an offset and a length, or an offset
  posix_fallocate : ℤ → ℤ → ℤ → ToolCall
  pread : ℤ → ℤ → ToolCall
  -- seconds in `number`, microseconds in `micros`
  gettimeofday : ToolCall
  handle_signal : ℕ → ToolCall
  wait gettid pthread_create : ToolCall
  -- what C leaves undefined: a value, or, below 0, a signal
  divide_by_zero : ToolCall
  -- of libproc2: 0 where there is no result; `counts->total` is `number`, the state is `text`
  procps_pids_new : ToolCall
  procps_pids_select : ℤ → ToolCall

pub data Call : Type 0 where
  fopen fclose : ProcFile → Call
  -- at most so many bytes; a result below 0 is what `ferror` reports
  fread : ProcFile → ℕ → Call
  -- `fscanf` of "%d": the file's bytes are `text`
  fscanf_int : ProcFile → Call
  -- `stat` of /proc/$pid: the owner is `number`
  stat_dir : ℤ → Call
  -- `opendir`, with the names that `readdir` will give in `names` and the error at their end in `number`
  read_dir : Call
  getpid clock_gettime sysconf_pagesize : Call
  kill : ℤ → ℕ → Call
  getpgid pidfd_open process_mrelease close : ℤ → Call
  -- nanoseconds, and seconds
  nanosleep sleep : ℕ → Call
  access_write open_write : ProcFile → Call
  access_exec : Bytes → Call
  write_byte : ℤ → ℕ → Call
  block_sigchld : Bool → Call
  fork : Call
  poll : ℤ → ℕ → Call
  waitpid : ℤ → Call
  -- any child, with WNOHANG
  wait_any : Call
  setenv : Bytes → Bytes → Call
  execv : Bytes → List Bytes → Call
  chdir_proc set_priority : Call
  fopen_write : ProcFile → Call
  fprintf_int : ProcFile → ℤ → Call
  -- with MCL_ONFAULT or without
  mlockall : Bool → Call
  print : Level → Call
  tool : ToolCall → Call

-- The result, `errno` where that is negative, and what else a call gives: a file's bytes or
-- name, the directory's names, a user id, seconds, microseconds.
pub record Reply : Type 0 where
  pub ret : ℤ
  pub err : ℕ
  pub text : Bytes
  pub names : List Bytes
  pub number : ℕ
  pub micros : ℕ

abbrev pub Event : Type 0
Event = Call × Reply

abbrev pub Os : Type 0
Os = List Event → Call → Reply

pub record Machine : Type 0 where
  pub trace : List Event
  pub errno : ℕ
  -- globals.c
  pub enable_debug : Bool
  -- static variables of `parse_meminfo` and `notify_process_killed`
  pub meminfo_open : Bool
  pub guesstimate_warned : Bool
  pub prev_notify : ℕ

-- The process goes on, has ended with a status, or runs another program after `execv`.
pub data Result (A : Type 0) : Type 0 where
  done : A → Result A
  exited : ℕ → Result A
  replaced : Result A

abbrev pub Action : Type 0 → Type 0
Action A = Machine → Result A × Machine

module _ {A : Type 0} where
  unfoldable pub pure : A → Action A
  pure a m = (done a, m)

  unfoldable pub exit : ℕ → Action A
  exit code m = (exited code, m)

  unfoldable pub gets : (Machine → A) → Action A
  gets f m = (done (f m), m)

-- `execv` where it succeeds.
unfoldable pub replace_process : {A : Type 0} → Action A
replace_process m = (replaced, m)

unfoldable pub modify : (Machine → Machine) → Action Unit
modify f m = (done tt, f m)

-- `if` between actions.
unfoldable pub branch : {A : Type 0} → Bool → Action A → Action A → Action A
branch true x y = x
branch false x y = y

abbrev pub continue : {A B : Type 0} → Result A → (A → Action B) → Action B
continue (done a) f m = f a m
continue (exited code) f m = (exited code, m)
continue replaced f m = (replaced, m)

-- To open this is to open those above.
infixl 5 ◌>>=◌ ◌>>◌
unfoldable pub ◌>>=◌ : {A B : Type 0} → Action A → (A → Action B) → Action B
unfolding pure exit gets replace_process modify branch
◌>>=◌ x f m = let (r, m') = x m in continue r f m'

abbrev pub ◌>>◌ : {A B : Type 0} → Action A → Action B → Action B
x >> y = x >>= λ _. y

abbrev pub skip : Action Unit
skip = pure tt

abbrev pub set_errno : ℕ → Action Unit
set_errno e = modify (λ m. record m { errno = e })

abbrev pub failed : Reply → Bool
failed r = ltb_ℤ r.ret (pos 0)

module _ (os : Os) where
  -- A call sets `errno` only where it fails.
  unfoldable pub call : Call → Action Reply
  call c m =
      let r = os m.trace c in
      (done r, record m { trace = (c, r) ∷ m.trace; errno = if failed r then r.err else m.errno })

  -- Output: what becomes of it is not looked at.
  unfoldable pub say : Level → Action Unit
  say l m = (done tt, record m { trace = (print l, os m.trace (print l)) ∷ m.trace })

  abbrev pub warn : Action Unit
  warn = say warn_level

  abbrev pub info : Action Unit
  info = say info_level

  -- `fatal` of msg.c: a message, and the end of the process.
  unfoldable pub fatal : {A : Type 0} → ℕ → Action A
  unfolding say
  fatal code = do say warn_level; exit code

abbrev pub enodata : ℕ
enodata = 61

abbrev pub etime : ℕ
etime = 62

abbrev pub eperm : ℕ
eperm = 1

abbrev pub erange : ℕ
erange = 34

-- `-errno`
abbrev pub minus : ℕ → ℤ
minus e = neg (pos e)
