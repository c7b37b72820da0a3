-- ===== src/Decide/Tests.antt =====
-- The laws of the decisions at concrete values.
use earlyoom.Prelude.{◌↔◌, ◌≡◌, ◌≢◌, ◌≤◌, refl, ◌⊎◌, arith, ◌*◌}
use earlyoom.Prelude.Int.{pos, ◌<ℤ◌}
use earlyoom.Double.{◌≼◌}
use earlyoom.Double.Whole.{Whole, whole_double, Whole-IsOrdered}
use earlyoom.MemInfo.{MemInfo}
use earlyoom.Decide.{lowmem_sig, sleep_time_ms, headroom, clamped_ms}
use earlyoom.Decide.Lowmem.{severity, lowmem_sig_mono, lowmem_sig_acts}
use earlyoom.Decide.Sleep.{sleep_time_ms_bounds, sleep_time_ms_safe}
use earlyoom.Samples.{default_args, roomy, tight}

tight_killed : lowmem_sig default_args tight ≡ 9
unfolding lowmem_sig
tight_killed = refl

-- With much memory the sleep is long.
abbrev vast : MemInfo Whole
vast = record roomy { user_mem_total = pos 10000000 }

vast_sleep : sleep_time_ms default_args vast ≡ 666
unfolding sleep_time_ms headroom clamped_ms
vast_sleep = refl

lowmem_sig_mono_example :
    severity (lowmem_sig default_args roomy) ≤ severity (lowmem_sig default_args tight)
lowmem_sig_mono_example = lowmem_sig_mono Whole-IsOrdered default_args tight roomy refl refl

lowmem_sig_acts_example : (lowmem_sig default_args tight ≢ 0) ↔ (
    (tight.mem_available_percent ≼ default_args.mem_term_percent)
    × (tight.swap_free_percent ≼ default_args.swap_term_percent))
lowmem_sig_acts_example = lowmem_sig_acts Whole-IsOrdered default_args tight refl refl

sleep_time_ms_bounds_example :
    (100 ≤ sleep_time_ms default_args roomy) × (sleep_time_ms default_args roomy ≤ 1000)
sleep_time_ms_bounds_example = sleep_time_ms_bounds default_args roomy

sleep_time_ms_safe_example :
    (pos (6000 * 600)
      <ℤ headroom vast.mem_available_percent default_args.mem_term_percent vast.user_mem_total)
    ⊎ (pos (800 * 50)
        <ℤ headroom vast.swap_free_percent default_args.swap_term_percent vast.swap_total)
unfolding sleep_time_ms headroom clamped_ms
sleep_time_ms_safe_example = sleep_time_ms_safe default_args vast 600 50 (omega arith) (omega arith)
