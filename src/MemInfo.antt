-- ===== src/MemInfo.antt =====
-- meminfo.c: /proc/meminfo, from `get_entry` to `parse_meminfo`. Amounts are in KiB. `long long`
-- sums are integers without a bound: each amount is below 2^44 on any machine.
pub mod Entry
pub mod Valid
pub mod Range
pub mod Exits
pub mod Nets
pub mod Reads
mod Tests
use earlyoom.Prelude.{
  ℕ, zero, suc, ◌-◌, Bool, true, false, not, ◌&&◌, ◌||◌, Option, none, some, List, [], ◌∷◌, ◌==◌,
  if◌then◌else◌, length, take, drop,
}
use earlyoom.Prelude.Int.{ℤ, pos, negsuc, ltb_ℤ, leb_ℤ, ◌+ℤ◌, ◌-ℤ◌, Fits}
use earlyoom.Prelude.Text.{Bytes, codes, cstr, strstr}
use earlyoom.Prelude.Scan.{scan_int}
use earlyoom.Double.{Double}
use earlyoom.Machine.{
  meminfo_file, fopen, fread, Os, Machine, Action, pure, branch, ◌>>=◌, ◌>>◌, skip, gets, modify,
  set_errno, call, warn, fatal, failed, enodata, erange, minus,
}

pub record MemInfo (W : Type 0) : Type 0 where
  pub mem_total : ℤ
  pub mem_available : ℤ
  pub swap_total : ℤ
  pub swap_free : ℤ
  pub anon_pages : ℤ
  pub user_mem_total : ℤ
  pub mem_available_percent : W
  pub swap_free_percent : W

abbrev pub llong_max : ℤ
llong_max = pos 9_223_372_036_854_775_807

abbrev pub llong_min : ℤ
llong_min = negsuc 9_223_372_036_854_775_807

-- `strtoll` in base 10: the value, 0 where there is no number, and whether it was out of range.
unfoldable pub strtoll : Bytes → ℤ × Bool
strtoll s = elim (scan_int s) [
  | none ↦ (pos 0, false)
  | some (v, rest) ↦
      if ltb_ℤ llong_max v
      then (llong_max, true)
      else if ltb_ℤ v llong_min
      then (llong_min, true)
      else (v, false)
]

-- The value and the error number of an entry, which is none where `errno` stays 0.
unfoldable pub entry : Bytes → Bytes → ℤ × Option ℕ
unfolding strtoll
entry name buf = elim (strstr buf name) [
  | none ↦ (minus enodata, none)
  | some hit ↦
      let (val, out_of_range) = strtoll (drop (length name) hit) in
      if out_of_range then (minus erange, some erange) else (val, some 0)
]

-- The buffer of `parse_meminfo`.
abbrev pub buf_len : ℕ
buf_len = 8192

module _ (os : Os) where
  -- `errno` is cleared before `strtoll`, and an error is reported.
  unfoldable pub note_errno : Option ℕ → Action Unit
  note_errno none = skip
  note_errno (some zero) = set_errno 0
  note_errno (some (suc e)) = set_errno (suc e) >> warn os

  unfoldable pub get_entry : Bytes → Bytes → Action ℤ
  get_entry name buf = let (val, e) = entry name buf in note_errno e >> pure val

  unfoldable pub get_entry_fatal : Bytes → Bytes → Action ℤ
  get_entry_fatal name buf = do
    val ← get_entry name buf
    branch (ltb_ℤ val (pos 0)) (warn os >> fatal os 104) (pure val)

  unfoldable pub available_guesstimate : Bytes → Action ℤ
  available_guesstimate buf = do
    cached ← get_entry_fatal (codes "Cached:") buf
    mem_free ← get_entry_fatal (codes "MemFree:") buf
    buffers ← get_entry_fatal (codes "Buffers:") buf
    shmem ← get_entry_fatal (codes "Shmem:") buf
    pure (mem_free +ℤ cached +ℤ buffers -ℤ shmem)

  -- The file, opened once and read from its start: what is in `buf`.
  unfoldable pub read_meminfo : Action Bytes
  read_meminfo = do
    is_open ← gets (λ m. m.meminfo_open)
    branch is_open skip do
      f ← call os (fopen meminfo_file)
      branch (failed f) (fatal os 102) (modify (λ m. record m { meminfo_open = true }))
    r ← call os (fread meminfo_file (buf_len - 1))
    let data_read = take (buf_len - 1) r.text
    branch (failed r) (fatal os 103)
        (branch (length data_read == 0) (fatal os 103) (pure (cstr data_read)))

  -- `MemAvailableKiB`, with the estimate where the kernel does not say, and one warning of that.
  unfoldable pub mem_available_or_guess : Bytes → Action ℤ
  mem_available_or_guess buf = do
    val ← get_entry (codes "MemAvailable:") buf
    branch (ltb_ℤ val (pos 0))
        (do
          guess ← available_guesstimate buf
          warned ← gets (λ m. m.guesstimate_warned)
          branch warned skip (warn os >> modify (λ m. record m { guesstimate_warned = true }))
          pure guess)
        (pure val)

module _ {W : Type 0} ⦃d : Double W⦄ where
  open d use {of_int, mul, div}

  abbrev pub percent : ℤ → ℤ → W
  percent part whole = div (mul (of_int part) (of_int (pos 100))) (of_int whole)

  -- "Calculated values" and "Calculate percentages".
  unfoldable pub mem_info : ℤ → ℤ → ℤ → ℤ → ℤ → MemInfo W
  mem_info mem_total swap_total anon_pages swap_free mem_available =
      let user_mem_total = mem_available +ℤ anon_pages in
      record {
        mem_total = mem_total;
        mem_available = mem_available;
        swap_total = swap_total;
        swap_free = swap_free;
        anon_pages = anon_pages;
        user_mem_total = user_mem_total;
        mem_available_percent = percent mem_available user_mem_total;
        swap_free_percent =
            if ltb_ℤ (pos 0) swap_total then percent swap_free swap_total else of_int (pos 0);
      }

  unfoldable pub parse_meminfo : Os → Action (MemInfo W)
  parse_meminfo os = do
    buf ← read_meminfo os
    mem_total ← get_entry_fatal os (codes "MemTotal:") buf
    swap_total ← get_entry_fatal os (codes "SwapTotal:") buf
    anon_pages ← get_entry_fatal os (codes "AnonPages:") buf
    swap_free ← get_entry_fatal os (codes "SwapFree:") buf
    mem_available ← mem_available_or_guess os buf
    pure (mem_info mem_total swap_total anon_pages swap_free mem_available)
