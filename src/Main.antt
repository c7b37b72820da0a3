-- ===== src/Main.antt =====
-- main.c: `main`, from the options to the main loop.
--
-- `getopt_long` belongs to the C library: what it gives is a list of `Opt`, with the argument of an
-- option that has one, and whether an argument is left over. `strtof`, the arithmetic on `float`, and
-- `regcomp` belong to it too; they are fields of `Clib`. The help text and the messages are prints.
-- --syslog changes no setting; Messages models what it does. `prctl`, `signal` and `setlinebuf` are left
-- out, for no result of theirs is looked at.
pub mod Dry
pub mod Harmless
pub mod Exits
pub mod Nets
mod Tests
use earlyoom.Prelude.{ℕ, Bool, true, false, not, ◌&&◌, Option, none, some, List, [], ◌∷◌}
use earlyoom.Prelude.Int.{ℤ, pos, ◌==ℤ◌}
use earlyoom.Prelude.Text.{Bytes}
use earlyoom.Double.{Double}
use earlyoom.Args.{Args}
use earlyoom.Machine.{
  chdir_proc, Os, Machine, Action, pure, exit, branch, ◌>>=◌, ◌>>◌, skip, modify, call, warn, info,
  fatal,
}
use earlyoom.MemInfo.{MemInfo, parse_meminfo}
use earlyoom.Options.{LimitOption, swap_size, Limits, Outcome, ok, fatal_status, take_limit, merge}
use earlyoom.Startup.{raise_priority, lock_memory, startup_selftests}
use earlyoom.Poll.{poll_rounds}

-- The cases of the switch.
pub data Opt : Type 0 where
  limit : LimitOption → Opt
  -- -k and -i, which are ignored
  ignored_k ignored_i : Opt
  -- -n, -g, -d, -v, -p, -h
  notify kill_group debug version priority help : Opt
  -- -N, -P and -r
  notify_ext prehook report_interval : Bytes → Opt
  ignore_root sort_by_rss dryrun syslog kernel_oom : Opt
  prefer avoid ignore : Bytes → Opt
  -- '?'
  unknown : Opt

-- `strtof`, a float below zero, `(int)(f * 1000)`, and `regcomp` with the test that `regexec` makes.
pub record Clib (F : Type 0) : Type 0 where
  pub strtof : Bytes → F
  pub is_negative : F → Bool
  pub millis : F → ℤ
  pub regcomp : Bytes → Option (Bytes → Bool)

-- The local variables of `main`.
pub record Settings (W : Type 0) : Type 0 where
  pub limits : Limits W
  pub set_my_priority : Bool
  pub prefer_cmds : Option Bytes
  pub avoid_cmds : Option Bytes
  pub ignore_cmds : Option Bytes

module _ {W : Type 0} where
  abbrev pub with_args : Settings W → (Args W → Args W) → Settings W
  with_args s f = record s { limits = record s.limits { args = f s.limits.args } }

  -- -S where there is no swap
  abbrev is_useless : MemInfo W → LimitOption → Bool
  is_useless m (swap_size optarg) = m.swap_total ==ℤ pos 0
  is_useless m _ = false

module _ {W : Type 0} ⦃d : Double W⦄ where
  open d use {of_int}

  abbrev pub initial_settings : Settings W
  initial_settings = record {
    limits = record {
      args = record {
        mem_term_percent = of_int (pos 10);
        mem_kill_percent = of_int (pos 5);
        swap_term_percent = of_int (pos 10);
        swap_kill_percent = of_int (pos 5);
        notify = false;
        notify_ext = none;
        kill_process_prehook = none;
        kill_process_group = false;
        ignore_root_user = false;
        sort_by_rss = false;
        prefer_regex = none;
        avoid_regex = none;
        ignore_regex = none;
        report_interval_ms = pos 1000;
        dryrun = false;
        kernel_oom = false;
      };
      have_mem_percent = false;
      have_swap_percent = false;
      have_mem_size = false;
      have_swap_size = false;
      mem_term_kib = of_int (pos 0);
      mem_kill_kib = of_int (pos 0);
      swap_term_kib = of_int (pos 0);
      swap_kill_kib = of_int (pos 0);
    };
    set_my_priority = false;
    prefer_cmds = none;
    avoid_cmds = none;
    ignore_cmds = none;
  }

module _ {F : Type 0} (os : Os) (lib : Clib F) where
  open lib use {regcomp}

  unfoldable pub compiled : Option (Bytes → Bool) → Action (Option (Bytes → Bool))
  compiled none = fatal os 6
  compiled (some test) = info os >> pure (some test)

  -- The test that a regular expression makes, if one is given.
  unfoldable pub compile : Option Bytes → Action (Option (Bytes → Bool))
  compile none = pure none
  compile (some text) = compiled (regcomp text)

module _ {W F : Type 0} ⦃d : Double W⦄ (os : Os) (lib : Clib F) where
  open lib use {strtof, is_negative, millis}

  unfoldable pub set_limits : Settings W → Outcome (Limits W) → Action (Settings W)
  set_limits s (ok l) = pure (record s { limits = l })
  set_limits s (fatal_status code) = fatal os code

  -- One option.
  unfoldable pub take_option : MemInfo W → Opt → Settings W → Action (Settings W)
  take_option m (limit o) s = do
    s' ← set_limits s (take_limit m o s.limits)
    branch (is_useless m o) (warn os) skip
    pure s'
  take_option m ignored_k s = info os >> pure s
  take_option m ignored_i s = info os >> pure s
  take_option m notify s = info os >> pure (with_args s λ a. record a { notify = true })
  take_option m kill_group s = pure (with_args s λ a. record a { kill_process_group = true })
  take_option m debug s = modify (λ m. record m { enable_debug = true }) >> pure s
  take_option m version s = exit 0
  take_option m priority s = pure (record s { set_my_priority = true })
  take_option m help s = info os >> exit 0
  take_option m (notify_ext path) s = pure (with_args s λ a. record a { notify_ext = some path })
  take_option m (prehook path) s =
      pure (with_args s λ a. record a { kill_process_prehook = some path })
  take_option m (report_interval text) s =
      branch (is_negative (strtof text)) (fatal os 14)
        (pure (with_args s λ a. record a { report_interval_ms = millis (strtof text) }))
  take_option m ignore_root s =
      info os >> pure (with_args s λ a. record a { ignore_root_user = true })
  take_option m sort_by_rss s = info os >> pure (with_args s λ a. record a { sort_by_rss = true })
  take_option m dryrun s = warn os >> pure (with_args s λ a. record a { dryrun = true })
  take_option m syslog s = pure s
  take_option m kernel_oom s = info os >> pure (with_args s λ a. record a { kernel_oom = true })
  take_option m (prefer text) s = pure (record s { prefer_cmds = some text })
  take_option m (avoid text) s = pure (record s { avoid_cmds = some text })
  take_option m (ignore text) s = pure (record s { ignore_cmds = some text })
  take_option m unknown s = info os >> exit 13

  unfoldable pub take_options : MemInfo W → List Opt → Settings W → Action (Settings W)
  take_options m [] s = pure s
  take_options m (o ∷ options) s = do s' ← take_option m o s; take_options m options s'

  -- What `main` does between the options and the self-tests.
  unfoldable pub settle : MemInfo W → Settings W → Action (Args W)
  settle m s = do
    prefer_test ← compile os lib s.prefer_cmds
    avoid_test ← compile os lib s.avoid_cmds
    ignore_test ← compile os lib s.ignore_cmds
    branch s.set_my_priority (raise_priority os) skip
    let args = merge m s.limits
    pure (record args {
      prefer_regex = prefer_test;
      avoid_regex = avoid_test;
      ignore_regex = ignore_test;
    })

module _ (W : Type 0) {F : Type 0} ⦃d : Double W⦄ (os : Os) (lib : Clib F) where
  -- `main`, with so many rounds of the main loop.
  unfoldable pub main : List Opt → Bool → ℕ → ℕ → Action ℤ
  main options extra interrupts rounds = do
    info os
    dir ← call os chdir_proc
    branch (not (dir.ret ==ℤ pos 0)) (fatal os 4) skip
    m ← parse_meminfo {W = W} os
    s ← take_options os lib m options initial_settings
    branch extra (fatal os 13) skip
    args ← settle os lib m s
    tested ← startup_selftests os args
    info os
    branch tested.kernel_oom (info os) (info os >> info os)
    lock_memory os
    poll_rounds os tested interrupts rounds (pos 0)
