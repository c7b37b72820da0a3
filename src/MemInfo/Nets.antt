-- ===== src/MemInfo/Nets.antt =====
-- `parse_meminfo` of meminfo.c: its files.
use earlyoom.Prelude.{refl, true, Option, none, some, ℕ, zero, suc}
use earlyoom.Prelude.Text.{Bytes}
use earlyoom.Double.{Double}
use earlyoom.Machine.{Os, modify}
use earlyoom.Machine.Nets.{Weight, Stays, Stays-modify, stays_rules}
use earlyoom.MemInfo.{
  note_errno, get_entry, get_entry_fatal, available_guesstimate, read_meminfo,
  mem_available_or_guess, parse_meminfo,
}

module _ {w : Weight} {n : ℕ} (os : Os) where
  note_errno-Nets : (e : Option ℕ) → Stays w n (note_errno os e)
  unfolding note_errno
  note_errno-Nets none = search (stays_rules)
  note_errno-Nets (some zero) = search (stays_rules)
  note_errno-Nets (some (suc e)) = search (stays_rules) depth 14

  get_entry-Nets : (name buf : Bytes) → Stays w n (get_entry os name buf)
  unfolding get_entry
  get_entry-Nets name buf = search (stays_rules, note_errno-Nets) depth 14

  get_entry_fatal-Nets : (name buf : Bytes) → Stays w n (get_entry_fatal os name buf)
  unfolding get_entry_fatal
  get_entry_fatal-Nets name buf = search (stays_rules, get_entry-Nets) depth 14

  available_guesstimate-Nets : (buf : Bytes) → Stays w n (available_guesstimate os buf)
  unfolding available_guesstimate
  available_guesstimate-Nets buf = search (stays_rules, get_entry_fatal-Nets) depth 14

  set_open-Nets : Stays w n (modify (λ m. record m { meminfo_open = true }))
  set_open-Nets = Stays-modify _ (λ m. refl)

  set_warned-Nets : Stays w n (modify (λ m. record m { guesstimate_warned = true }))
  set_warned-Nets = Stays-modify _ (λ m. refl)

  read_meminfo-Nets : Stays w n (read_meminfo os)
  unfolding read_meminfo
  read_meminfo-Nets = search (stays_rules, set_open-Nets) depth 14

  mem_available_or_guess-Nets : (buf : Bytes) → Stays w n (mem_available_or_guess os buf)
  unfolding mem_available_or_guess
  mem_available_or_guess-Nets buf =
      search (stays_rules, set_warned-Nets, get_entry-Nets, available_guesstimate-Nets) depth 14

  module _ {W : Type 0} ⦃d : Double W⦄ where
    pub parse_meminfo-Nets : Stays w n (parse_meminfo {W = W} os)
    unfolding parse_meminfo
    parse_meminfo-Nets =
        search (stays_rules, read_meminfo-Nets, get_entry_fatal-Nets, mem_available_or_guess-Nets)
          depth 14
