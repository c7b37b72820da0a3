-- ===== src/Machine/Quiet.antt =====
-- Kinds of calls.
use earlyoom.Machine.{
  Call, fopen, fclose, fread, fscanf_int, stat_dir, read_dir, getpid, clock_gettime,
  sysconf_pagesize, kill, process_mrelease, nanosleep, sleep, open_write, write_byte, print, tool,
}

-- Calls that only read: files, the owner of a directory, the clock, and output.
abbrev pub IsReading : Call → Type 0
IsReading (fopen file) = Unit
IsReading (fclose file) = Unit
IsReading (fread file n) = Unit
IsReading (fscanf_int file) = Unit
IsReading (stat_dir pid) = Unit
IsReading read_dir = Unit
IsReading getpid = Unit
IsReading clock_gettime = Unit
IsReading sysconf_pagesize = Unit
IsReading (print level) = Unit
IsReading _ = ⊥

-- Calls that do nothing to another process than a subprocess of the program: all but kill, the
-- reaping of memory, writing, sleeping and what only the programs under contrib/ do.
abbrev pub IsAside : Call → Type 0
IsAside (kill pid sig) = ⊥
IsAside (process_mrelease pidfd) = ⊥
IsAside (open_write file) = ⊥
IsAside (write_byte fd byte) = ⊥
IsAside (nanosleep ms) = ⊥
IsAside (sleep s) = ⊥
IsAside (tool t) = ⊥
IsAside _ = Unit

pub IsReading-IsAside : (c : Call) → IsReading c → IsAside c
IsReading-IsAside (fopen file) h = tt
IsReading-IsAside (fclose file) h = tt
IsReading-IsAside (fread file n) h = tt
IsReading-IsAside (fscanf_int file) h = tt
IsReading-IsAside (stat_dir pid) h = tt
IsReading-IsAside read_dir h = tt
IsReading-IsAside getpid h = tt
IsReading-IsAside clock_gettime h = tt
IsReading-IsAside sysconf_pagesize h = tt
IsReading-IsAside (print level) h = tt
IsReading-IsAside _ h = absurd h

-- A call that reads, or sleeps.
abbrev pub IsIdle : Call → Type 0
IsIdle (nanosleep ms) = Unit
IsIdle c = IsReading c

pub IsReading-IsIdle : (c : Call) → IsReading c → IsIdle c
IsReading-IsIdle (nanosleep ms) h = absurd h
IsReading-IsIdle c h = h
