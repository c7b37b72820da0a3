-- ===== src/MemInfo/Reads.antt =====
-- `parse_meminfo` of meminfo.c: its calls.
use earlyoom.Prelude.{refl, true, Option, none, some, ℕ, zero, suc}
use earlyoom.Prelude.Text.{Bytes}
use earlyoom.Double.{Double}
use earlyoom.Machine.{Os, modify}
use earlyoom.Machine.Calls.{Calls, Calls-modify, calls_rules}
use earlyoom.Machine.Quiet.{IsReading}
use earlyoom.MemInfo.{
  note_errno, get_entry, get_entry_fatal, available_guesstimate, read_meminfo,
  mem_available_or_guess, parse_meminfo,
}

module _ (os : Os) where
  note_errno-Calls : (e : Option ℕ) → Calls IsReading (note_errno os e)
  unfolding note_errno
  note_errno-Calls none = search (calls_rules)
  note_errno-Calls (some zero) = search (calls_rules)
  note_errno-Calls (some (suc e)) = search (calls_rules) depth 14

  get_entry-Calls : (name buf : Bytes) → Calls IsReading (get_entry os name buf)
  unfolding get_entry
  get_entry-Calls name buf = search (calls_rules, note_errno-Calls) depth 14

  get_entry_fatal-Calls : (name buf : Bytes) → Calls IsReading (get_entry_fatal os name buf)
  unfolding get_entry_fatal
  get_entry_fatal-Calls name buf = search (calls_rules, get_entry-Calls) depth 14

  available_guesstimate-Calls : (buf : Bytes) → Calls IsReading (available_guesstimate os buf)
  unfolding available_guesstimate
  available_guesstimate-Calls buf = search (calls_rules, get_entry_fatal-Calls) depth 14

  set_open-Calls : Calls IsReading (modify (λ m. record m { meminfo_open = true }))
  set_open-Calls = Calls-modify _ (λ m. refl)

  set_warned-Calls : Calls IsReading (modify (λ m. record m { guesstimate_warned = true }))
  set_warned-Calls = Calls-modify _ (λ m. refl)

  read_meminfo-Calls : Calls IsReading (read_meminfo os)
  unfolding read_meminfo
  read_meminfo-Calls = search (calls_rules, set_open-Calls) depth 14

  mem_available_or_guess-Calls : (buf : Bytes) → Calls IsReading (mem_available_or_guess os buf)
  unfolding mem_available_or_guess
  mem_available_or_guess-Calls buf =
      search (calls_rules, set_warned-Calls, get_entry-Calls, available_guesstimate-Calls) depth 14

  module _ {W : Type 0} ⦃d : Double W⦄ where
    pub parse_meminfo-Calls : Calls IsReading (parse_meminfo {W = W} os)
    unfolding parse_meminfo
    parse_meminfo-Calls =
        search
          (calls_rules, read_meminfo-Calls, get_entry_fatal-Calls, mem_available_or_guess-Calls)
          depth 14
