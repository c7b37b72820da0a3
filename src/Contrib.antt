-- ===== src/Contrib.antt =====
-- The test programs under contrib/, each a process of its own beside the daemon: what they share.
--
-- A signal that the process does not handle ends it with the status 128 plus the signal's number, as
-- the shell reports it. C leaves a division by zero undefined, and machines differ in it: it is a call
-- whose reply says what becomes of it.
pub mod Membomb
pub mod KeepActive
pub mod MmapTest
pub mod Zombie
pub mod Libproc2
use earlyoom.Prelude.{ℕ, zero, suc, ◌+◌, ◌*◌, Bool}
use earlyoom.Prelude.Int.{ℤ, pos, negsuc, neg, ◌+ℤ◌, ◌-ℤ◌, ◌*ℤ◌, quot, ◌==ℤ◌}
use earlyoom.Machine.{
  Reply, Os, Machine, Action, tool, gettimeofday, divide_by_zero, pure, exit, branch, ◌>>=◌, call,
  failed,
}

abbrev pub sigbus : ℕ
sigbus = 7

abbrev pub sigfpe : ℕ
sigfpe = 8

abbrev pub killed_by : {A : Type 0} → ℕ → Action A
killed_by signal = exit (128 + signal)

-- The quotient of C, which rounds towards zero.
abbrev quot_by : ℤ → ℤ → ℤ
quot_by a (pos d) = quot a d
quot_by a (negsuc d) = neg (quot a (suc d))

-- A division or a remainder by 0: the process is ended by SIGFPE, or goes on with some value.
unfoldable pub undefined : Os → Action ℤ
undefined os = do
  r ← call os (tool divide_by_zero)
  branch (failed r) (killed_by sigfpe) (pure r.ret)

unfoldable pub divided : Os → ℤ → ℤ → Action ℤ
divided os a b = branch (b ==ℤ pos 0) (undefined os) (pure (quot_by a b))

unfoldable pub remainder : Os → ℤ → ℤ → Action ℤ
remainder os a b = branch (b ==ℤ pos 0) (undefined os) (pure (a -ℤ quot_by a b *ℤ b))

pub record Time : Type 0 where
  pub tv_sec : ℤ
  pub tv_usec : ℤ

unfoldable pub time_of_day : Os → Action Time
time_of_day os = do
  r ← call os (tool gettimeofday)
  pure (record { tv_sec = pos r.number; tv_usec = pos r.micros })

-- The microseconds from one time to another.
abbrev pub elapsed : Time → Time → ℤ
elapsed tv1 tv2 = (tv2.tv_sec -ℤ tv1.tv_sec) *ℤ pos 1000000 +ℤ tv2.tv_usec -ℤ tv1.tv_usec
