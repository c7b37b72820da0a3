-- ===== src/Decide/Lowmem.antt =====
-- Laws of `lowmem_sig`.
use earlyoom.Prelude.{ℕ, ◌↔◌, ◌≡◌, ◌≢◌, ◌≤◌, arith, if◌then◌else◌, ◌==◌}
use earlyoom.Double.{Double, ◌≼◌, IsNumber, IsOrdered}
use earlyoom.MemInfo.{MemInfo}
use earlyoom.Args.{Args, sigterm, sigkill}
use earlyoom.Decide.{lowmem_sig}

-- How hard the answer is: nothing, SIGTERM, SIGKILL.
abbrev pub severity : ℕ → ℕ
severity sig = if sig == sigkill then 2 else if sig == sigterm then 1 else 0

module _ {W : Type 0} ⦃d : Double W⦄ (laws : IsOrdered W) where
  open d use {le}
  open laws use {le_trans, le_numbers}

  -- With less memory and less swap the answer is at least as hard.
  pub lowmem_sig_mono :
      (args : Args W) (less more : MemInfo W)
      → less.mem_available_percent ≼ more.mem_available_percent
      → less.swap_free_percent ≼ more.swap_free_percent
      → severity (lowmem_sig args more) ≤ severity (lowmem_sig args less)
  unfolding lowmem_sig
  lowmem_sig_mono args less more h k =
      let m = less.mem_available_percent in
      let s = less.swap_free_percent in
      ground (
        arith,
        le_trans m more.mem_available_percent args.mem_kill_percent h,
        le_trans m more.mem_available_percent args.mem_term_percent h,
        le_trans s more.swap_free_percent args.swap_kill_percent k,
        le_trans s more.swap_free_percent args.swap_term_percent k,
      )

  -- Where the SIGKILL limits are not above the SIGTERM limits, a signal is called for exactly where
  -- memory and swap are both at or below the SIGTERM limits.
  pub lowmem_sig_acts :
      (args : Args W) (m : MemInfo W)
      → args.mem_kill_percent ≼ args.mem_term_percent
      → args.swap_kill_percent ≼ args.swap_term_percent
      → (lowmem_sig args m ≢ 0) ↔ (
          (m.mem_available_percent ≼ args.mem_term_percent)
          × (m.swap_free_percent ≼ args.swap_term_percent))
  unfolding lowmem_sig
  lowmem_sig_acts args m h k =
      let a = m.mem_available_percent in
      let s = m.swap_free_percent in
      ground (
        arith,
        le_trans a args.mem_kill_percent args.mem_term_percent,
        le_trans s args.swap_kill_percent args.swap_term_percent,
      )

  -- With NaN for the two memory limits, as `-m nan` sets them, no signal is ever sent.
  pub lowmem_sig_nan :
      (args : Args W) (m : MemInfo W)
      → ¬ (IsNumber args.mem_term_percent)
      → ¬ (IsNumber args.mem_kill_percent)
      → lowmem_sig args m ≡ 0
  unfolding lowmem_sig
  lowmem_sig_nan args m h k = ground (
    arith,
    le_numbers m.mem_available_percent args.mem_term_percent,
    le_numbers m.mem_available_percent args.mem_kill_percent,
  )
