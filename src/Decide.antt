-- ===== src/Decide.antt =====
-- The two decisions of the poll loop in main.c: `lowmem_sig` and `sleep_time_ms`.
pub mod Lowmem
pub mod Sleep
mod Tests
use earlyoom.Prelude.{ℕ, Bool, true, false, ◌&&◌, if◌then◌else◌}
use earlyoom.Prelude.Int.{ℤ, pos, ltb_ℤ, ◌+ℤ◌, quot, pos_part}
use earlyoom.Double.{Double}
use earlyoom.MemInfo.{MemInfo}
use earlyoom.Args.{Args, sigterm, sigkill}

abbrev pub mem_fill_rate : ℕ
mem_fill_rate = 6000

abbrev pub swap_fill_rate : ℕ
swap_fill_rate = 800

abbrev pub min_sleep : ℕ
min_sleep = 100

abbrev pub max_sleep : ℕ
max_sleep = 1000

-- The time that the two headrooms take to fill, in the range of a sleep.
unfoldable pub clamped_ms : ℤ → ℤ → ℕ
clamped_ms mem_headroom swap_headroom =
    let ms = quot mem_headroom mem_fill_rate +ℤ quot swap_headroom swap_fill_rate in
    if ltb_ℤ ms (pos min_sleep)
    then min_sleep
    else if ltb_ℤ (pos max_sleep) ms
    then max_sleep
    else pos_part ms

module _ {W : Type 0} ⦃d : Double W⦄ where
  open d use {of_int, to_int, le, sub, mul, div}

  unfoldable pub lowmem_sig : Args W → MemInfo W → ℕ
  lowmem_sig args m =
      if le m.mem_available_percent args.mem_kill_percent
        && le m.swap_free_percent args.swap_kill_percent
      then sigkill
      else if le m.mem_available_percent args.mem_term_percent
          && le m.swap_free_percent args.swap_term_percent
      then sigterm
      else 0

  -- The KiB between a share and its limit, and none below the limit.
  unfoldable pub headroom : W → W → ℤ → ℤ
  headroom share limit total =
      let kib = to_int (div (mul (sub share limit) (of_int total)) (of_int (pos 100))) in
      if ltb_ℤ kib (pos 0) then pos 0 else kib

  unfoldable pub sleep_time_ms : Args W → MemInfo W → ℕ
  unfolding clamped_ms
  sleep_time_ms args m =
      clamped_ms (headroom m.mem_available_percent args.mem_term_percent m.user_mem_total)
        (headroom m.swap_free_percent args.swap_term_percent m.swap_total)
