-- ===== src/Select.antt =====
-- The choice of the victim in kill.c: `isnumeric`, `is_larger`, `fill_informative_fields`,
-- `debug_print_procinfo` and `find_largest_process`. `procinfo_t` comes from meminfo.h.
--
-- `is_larger` is a chain of checks, in the order of the source. Each gives its verdict with the
-- fields of `cur` that it has filled, and the first refusal ends the chain. `read_dir` is `opendir` with
-- all that `readdir` will give, and the error number at its end; `closedir` and the clock, which is
-- read for a debug message, are left out.
mod Info
pub mod Target
pub mod Victim
pub mod Passes
pub mod Exits
pub mod Nets
pub mod Reads
pub mod Order
pub mod Ranking
pub mod Eligible
pub mod Found
pub mod Largest
pub mod Selected
pub mod Best
pub mod Rss
pub mod Steady
mod Tests
unfoldable pub use Info.*
use earlyoom.Prelude.{
  ◌==◌, ℕ, ◌+◌, ◌*◌, Bool, true, false, not, ◌&&◌, ◌||◌, Option, none, some, List, [], ◌∷◌,
  if◌then◌else◌,
}
use earlyoom.Prelude.Int.{ℤ, pos, negsuc, ◌+ℤ◌, ◌*ℤ◌, quot, ltb_ℤ, leb_ℤ, ◌==ℤ◌, int_of_long}
use earlyoom.Prelude.Text.{Bytes, is_nil, is_digit, scan_digits}
use earlyoom.ProcPid.{PidStat}
use earlyoom.Args.{Args}
use earlyoom.Machine.{
  read_dir, getpid, sysconf_pagesize, Os, Machine, Action, pure, branch, ◌>>=◌, ◌>>◌, skip,
  set_errno, modify, gets, call, warn, fatal, failed,
}
use earlyoom.Proc.{
  parse_proc_pid_stat, get_oom_score, get_oom_score_adj, get_comm, get_cmdline, get_uid,
}

-- `regex && regexec(regex, name, ...) == 0`
abbrev pub matches : Option (Bytes → Bool) → Bytes → Bool
matches none name = false
matches (some regex) name = regex name

abbrev pub is_some {ℓ} : {A : Type ℓ} → Option A → Bool
is_some none = false
is_some (some a) = true

abbrev pub Verdict : Type 0
Verdict = Bool × ProcInfo

abbrev pub accept : ProcInfo → Action Verdict
accept cur = pure (true, cur)

abbrev pub refuse : ProcInfo → Action Verdict
refuse cur = pure (false, cur)

-- The next check, unless this one refuses.
infixl 5 ◌▸◌
unfoldable pub ◌▸◌ : Action Verdict → (ProcInfo → Action Verdict) → Action Verdict
x ▸ f = do (ok, cur) ← x; branch ok (f cur) (refuse cur)

unfoldable pub check_pid : ProcInfo → Action Verdict
check_pid cur = branch (leb_ℤ cur.pid (pos 2)) (refuse cur) (accept cur)

unfoldable pub check_kernel_thread : ProcInfo → Action Verdict
check_kernel_thread cur = branch (cur.stat.ppid ==ℤ pos 2) (refuse cur) (accept cur)

-- `cur` does not come before the victim by oom_score, nor by rss where the scores are equal.
unfoldable pub not_larger_by_score : ProcInfo → ProcInfo → Bool
not_larger_by_score victim cur =
    ltb_ℤ cur.oom_score victim.oom_score
    || (cur.oom_score ==ℤ victim.oom_score && leb_ℤ cur.vm_rss victim.vm_rss)

unfoldable pub not_larger_by_rss : ProcInfo → ProcInfo → Bool
not_larger_by_rss victim cur =
    ltb_ℤ cur.vm_rss victim.vm_rss
    || (cur.vm_rss ==ℤ victim.vm_rss && leb_ℤ cur.oom_score victim.oom_score)

module _ {W : Type 0} (args : Args W) where
  -- The bonus of --prefer and --avoid, on the field that decides.
  unfoldable pub adjust : Bool → ℤ → ℤ → ProcInfo → ProcInfo
  adjust hit rss score cur =
      if not hit
      then cur
      else if args.sort_by_rss
      then record cur { vm_rss = cur.vm_rss +ℤ rss }
      else record cur { oom_score = cur.oom_score +ℤ score }

module _ {W : Type 0} (os : Os) (args : Args W) where
  unfoldable pub check_root : ProcInfo → Action Verdict
  check_root cur = branch (not args.ignore_root_user) (accept cur) do
    res ← get_uid os cur.pid
    branch (ltb_ℤ res (pos 0)) (refuse cur) (
        branch (res ==ℤ pos 0) (refuse (record cur { uid = res }))
          (accept (record cur { uid = res })))

  unfoldable pub check_name : ProcInfo → Action Verdict
  check_name cur =
      branch
        (not (is_some args.prefer_regex || is_some args.avoid_regex || is_some args.ignore_regex))
        (accept cur)
        do
          (res, name) ← get_comm os cur.pid cur.name
          let named = record cur { name = name }
          let preferred =
              adjust args (matches args.prefer_regex name) vmrss_prefer oom_score_prefer named
          let avoided =
              adjust args (matches args.avoid_regex name) vmrss_avoid oom_score_avoid preferred
          branch (ltb_ℤ res (pos 0)) (refuse named)
              (branch (matches args.ignore_regex name) (refuse avoided) (accept avoided))

  -- For a zombie main thread, whose rss is 0, the name is read for the warning.
  unfoldable pub warn_zombie : ProcInfo → Action ProcInfo
  warn_zombie cur =
      branch (cur.vm_rss ==ℤ pos 0)
        (do (res, name) ← get_comm os cur.pid cur.name; warn os; pure (record cur { name = name }))
        (pure cur)

  unfoldable pub compare_with : ProcInfo → ProcInfo → Action Verdict
  compare_with victim cur =
      branch (not args.sort_by_rss) (pure (not (not_larger_by_score victim cur), cur)) (
        branch (ltb_ℤ (pos 0) cur.vm_rss && ltb_ℤ (pos 0) victim.vm_rss)
          (pure (not (not_larger_by_rss victim cur), cur))
          (do cur' ← warn_zombie cur; pure (not (not_larger_by_score victim cur'), cur')))

module _ (os : Os) where
  unfoldable pub take_stat : ProcInfo → Option PidStat → Action Verdict
  take_stat cur none = refuse cur
  take_stat cur (some s) = do
    page ← call os sysconf_pagesize
    accept (record cur { stat = s; vm_rss = quot (s.rss *ℤ page.ret) 1024 })

  unfoldable pub read_stat : ProcInfo → Action Verdict
  read_stat cur = do stat ← parse_proc_pid_stat os cur.pid; take_stat cur stat

  unfoldable pub read_oom_score : ProcInfo → Action Verdict
  read_oom_score cur = do
    res ← get_oom_score os cur.pid
    branch (ltb_ℤ res (pos 0)) (refuse cur) (accept (record cur { oom_score = res }))

  -- -1000 exempts a process.
  unfoldable pub check_adj : ProcInfo → Action Verdict
  check_adj cur = do
    (res, adj) ← get_oom_score_adj os cur.pid cur.oom_score_adj
    let adjusted = record cur { oom_score_adj = adj }
    branch (ltb_ℤ res (pos 0) || adj ==ℤ negsuc 999) (refuse adjusted) (accept adjusted)

  unfoldable pub fill_informative_fields : ProcInfo → Action ProcInfo
  fill_informative_fields cur = do
    (res, name) ← branch (is_nil cur.name) (get_comm os cur.pid cur.name) (pure (pos 0, cur.name))
    (res, cmdline) ←
        branch (is_nil cur.cmdline) (get_cmdline os cur.pid cur.cmdline) (pure (pos 0, cur.cmdline))
    uid ← branch (cur.uid ==ℤ field_not_set) (get_uid os cur.pid) (pure cur.uid)
    pure (record cur {
      name = name;
      cmdline = cmdline;
      uid = if cur.uid ==ℤ field_not_set && ltb_ℤ uid (pos 0) then cur.uid else uid;
    })

  unfoldable pub debug_print_procinfo : ProcInfo → Action ProcInfo
  debug_print_procinfo cur = do
    debug ← gets (λ m. m.enable_debug)
    branch debug (fill_informative_fields cur) (pure cur)

module _ {W : Type 0} (os : Os) (args : Args W) where
  -- The checks that do not look at the victim.
  unfoldable pub measure : ProcInfo → Action Verdict
  measure cur =
      check_pid cur
      ▸ check_root os args
      ▸ read_stat os
      ▸ check_kernel_thread
      ▸ read_oom_score os
      ▸ check_name os args

  unfoldable pub is_larger : ProcInfo → ProcInfo → Action Verdict
  is_larger victim cur = measure cur ▸ compare_with os args victim ▸ check_adj os

  abbrev pub fresh : Bytes → ProcInfo
  fresh name = record empty_procinfo { pid = int_of_long (pos (scan_digits name 0 false).0) }

  -- One name of the directory: the victim after it.
  unfoldable pub consider : Bytes → ProcInfo → Action ProcInfo
  consider name victim = branch (not (isnumeric name)) (pure victim) do
    (larger, cur) ← is_larger victim (fresh name)
    cur' ← debug_print_procinfo os cur
    pure (if larger then cur' else victim)

  unfoldable pub scan_names : List Bytes → ProcInfo → Action ProcInfo
  scan_names [] victim = pure victim
  scan_names (name ∷ names) victim = do
    set_errno 0
    victim' ← consider name victim
    scan_names names victim'

  unfoldable pub find_largest_process : Action ProcInfo
  find_largest_process = do
    dir ← call os read_dir
    branch (failed dir) (fatal os 5) do
      victim ← scan_names dir.names empty_procinfo
      set_errno dir.number
      branch (not (dir.number == 0)) (warn os) skip
      self ← call os getpid
      branch (victim.pid ==ℤ self.ret) (warn os) skip
      let chosen = if victim.pid ==ℤ self.ret then zero_procinfo else victim
      branch (leb_ℤ (pos 0) chosen.pid) (fill_informative_fields os chosen) (pure chosen)
