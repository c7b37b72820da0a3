-- ===== src/Options.antt =====
-- main.c: the limits. The options -m, -s, -M and -S set local variables, and behind the last option
-- the sizes of -M and -S are merged with the percentages of -m and -s.
pub mod Merge
mod Tests
use earlyoom.Prelude.{ℕ, Bool, true, false, Option, none, some, List, [], ◌∷◌, if◌then◌else◌}
use earlyoom.Prelude.Int.{ℤ, pos, ◌*ℤ◌, ◌==ℤ◌, quot}
use earlyoom.Prelude.Text.{Bytes}
use earlyoom.Double.{Double}
use earlyoom.Args.{Args}
use earlyoom.MemInfo.{MemInfo}
use earlyoom.TermKill.{TermKillTuple, parse_term_kill_tuple}

pub data LimitOption : Type 0 where
  mem_percent swap_percent mem_size swap_size : Bytes → LimitOption

-- The local variables of `main` that the four options set.
pub record Limits (W : Type 0) : Type 0 where
  pub args : Args W
  pub have_mem_percent : Bool
  pub have_swap_percent : Bool
  pub have_mem_size : Bool
  pub have_swap_size : Bool
  pub mem_term_kib : W
  pub mem_kill_kib : W
  pub swap_term_kib : W
  pub swap_kill_kib : W

-- Limits, or the status of a fatal error.
pub data Outcome (A : Type 0) : Type 0 where
  ok : A → Outcome A
  fatal_status : ℕ → Outcome A

abbrev pub checked : {A E : Type 0} → ℕ → Option E → A → Outcome A
checked code none a = ok a
checked code (some e) a = fatal_status code

-- The upper limit of a size: the largest of which the share stays below 100 %.
abbrev pub size_limit : ℤ → ℤ
size_limit total = quot (total *ℤ pos 100) 99

module _ {W : Type 0} ⦃d : Double W⦄ where
  open d use {of_int, lt, mul, div}

  unfoldable pub take_limit : MemInfo W → LimitOption → Limits W → Outcome (Limits W)
  take_limit m (mem_percent optarg) l =
      let tuple = parse_term_kill_tuple optarg (pos 99) in
      checked 15 tuple.err (record l {
        args = record l.args { mem_term_percent = tuple.term; mem_kill_percent = tuple.kill };
        have_mem_percent = true;
      })
  take_limit m (swap_percent optarg) l =
      let tuple = parse_term_kill_tuple optarg (pos 100) in
      checked 16 tuple.err (record l {
        args = record l.args { swap_term_percent = tuple.term; swap_kill_percent = tuple.kill };
        have_swap_percent = true;
      })
  take_limit m (mem_size optarg) l =
      let tuple = parse_term_kill_tuple optarg (size_limit m.mem_total) in
      checked 15 tuple.err
        (record l { mem_term_kib = tuple.term; mem_kill_kib = tuple.kill; have_mem_size = true })
  take_limit m (swap_size optarg) l =
      let tuple = parse_term_kill_tuple optarg (size_limit m.swap_total) in
      checked 16 tuple.err (
        if m.swap_total ==ℤ pos 0 then l else record l {
          swap_term_kib = tuple.term;
          swap_kill_kib = tuple.kill;
          have_swap_size = true;
        })

  unfoldable pub min : W → W → W
  min x y = if lt x y then x else y

  -- `100 * kib / (double)total`
  abbrev pub share : W → ℤ → W
  share kib total = div (mul (of_int (pos 100)) kib) (of_int total)

  -- A limit after the merge, from the percentage, whether it was given, and the size.
  unfoldable pub merged : Bool → W → W → W
  merged have_percent percent size_percent =
      if have_percent then min percent size_percent else size_percent

  unfoldable pub merge_mem : MemInfo W → Limits W → Args W → Args W
  merge_mem m l args =
      if l.have_mem_size
      then record args {
        mem_term_percent =
            merged l.have_mem_percent args.mem_term_percent (share l.mem_term_kib m.mem_total);
        mem_kill_percent =
            merged l.have_mem_percent args.mem_kill_percent (share l.mem_kill_kib m.mem_total);
      }
      else args

  unfoldable pub merge_swap : MemInfo W → Limits W → Args W → Args W
  merge_swap m l args =
      if l.have_swap_size
      then record args {
        swap_term_percent =
            merged l.have_swap_percent args.swap_term_percent (share l.swap_term_kib m.swap_total);
        swap_kill_percent =
            merged l.have_swap_percent args.swap_kill_percent (share l.swap_kill_kib m.swap_total);
      }
      else args

  unfoldable pub merge : MemInfo W → Limits W → Args W
  merge m l = merge_swap m l (merge_mem m l l.args)
