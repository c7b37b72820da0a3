-- ===== src/MemInfo/Valid.antt =====
-- meminfo.c, `parse_meminfo`: what a record that it returns holds.
use earlyoom.Prelude.{
  ℕ, sym, ap, List, take, Bool-cases, zero, suc, ◌≡◌, refl, ◌⊎◌, inl, inr, Option, none, some,
  arith, if◌then◌else◌,
}
use earlyoom.Prelude.Int.{ℤ, pos, ltb_ℤ, ◌<ℤ◌, ◌≤ℤ◌, ◌+ℤ◌}
use earlyoom.Prelude.Text.{Bytes, codes, cstr}
use earlyoom.Double.{Double, zero_of}
use earlyoom.Machine.{meminfo_file, fread, Event, Os}
use earlyoom.Machine.Returns.{
  Returns, Any, Returns-IsAnswer, Returns-pure, Returns-branch, Returns-bind, Returns-gets,
  Returns-modify, Returns-call, Returns-say, Returns-fatal,
}
use earlyoom.MemInfo.{
  MemInfo, entry, note_errno, get_entry, get_entry_fatal, available_guesstimate, read_meminfo,
  mem_available_or_guess, mem_info, parse_meminfo, percent,
}

-- The statuses of a fatal error: the file cannot be opened, cannot be read, or lacks an entry.
abbrev pub IsMeminfoError : ℕ → Type 0
IsMeminfoError code = (code ≡ 102) ⊎ (code ≡ 103) ⊎ (code ≡ 104)

-- What is in the buffer: the front of what the kernel gives for the file at some time.
pub record IsText (os : Os) (buf : Bytes) : Type 0 where
  pub asked : List Event
  pub read : buf ≡ cstr (take 8191 (os asked (fread meminfo_file 8191)).text)

-- The text has this amount, which is not negative, under the name.
pub record IsEntry (name buf : Bytes) (v : ℤ) : Type 0 where
  pub value : (entry name buf).0 ≡ v
  pub nonneg : pos 0 ≤ℤ v

-- The estimate where the kernel does not say how much memory is available.
pub record IsGuess (buf : Bytes) (v : ℤ) : Type 0 where
  pub mem_free : ℤ
  pub cached : ℤ
  pub buffers : ℤ
  pub shmem : ℤ
  pub reads_free : IsEntry (codes "MemFree:") buf mem_free
  pub reads_cached : IsEntry (codes "Cached:") buf cached
  pub reads_buffers : IsEntry (codes "Buffers:") buf buffers
  pub reads_shmem : IsEntry (codes "Shmem:") buf shmem
  pub sum : (v +ℤ shmem) ≡ (mem_free +ℤ (cached +ℤ buffers))

abbrev pub IsAvailable : Bytes → ℤ → Type 0
IsAvailable buf v =
    IsEntry (codes "MemAvailable:") buf v
    ⊎ (((entry (codes "MemAvailable:") buf).0 <ℤ pos 0) × IsGuess buf v)

module _ (os : Os) where
  note_errno-Returns : {E : ℕ → Type 0} (e : Option ℕ) → Returns Any E (note_errno os e)
  unfolding note_errno
  note_errno-Returns none = Returns-pure tt tt
  note_errno-Returns (some zero) = Returns-modify _
  note_errno-Returns (some (suc e)) = Returns-bind (Returns-modify _) λ _ _. Returns-say os _

  get_entry-Returns :
      {E : ℕ → Type 0} (name buf : Bytes)
      → Returns (λ v. v ≡ (entry name buf).0) E (get_entry os name buf)
  unfolding get_entry
  get_entry-Returns name buf =
      Returns-bind (note_errno-Returns (entry name buf).1) λ _ _. Returns-pure _ refl

  get_entry_fatal-Returns :
      (name buf : Bytes) → Returns (IsEntry name buf) IsMeminfoError (get_entry_fatal os name buf)
  unfolding get_entry_fatal
  get_entry_fatal-Returns name buf = Returns-bind (get_entry-Returns name buf) λ v e.
      Returns-branch
        (λ low. Returns-bind (Returns-say os _) λ _ _. Returns-fatal os 104 (inr (inr refl)))
        (λ ok. Returns-pure v (record { value = sym e; nonneg = ground arith }))

  read_meminfo-Returns : Returns (IsText os) IsMeminfoError (read_meminfo os)
  unfolding read_meminfo
  read_meminfo-Returns = Returns-bind (Returns-gets _) λ is_open _.
      Returns-bind
        (Returns-branch {Q = Any} (λ _. Returns-pure tt tt)
          λ _.
            Returns-bind (Returns-call os _)
              λ f _. Returns-branch (λ _. Returns-fatal os 102 (inl refl)) (λ _. Returns-modify _))
        λ _ _. Returns-bind (Returns-IsAnswer os _) λ r a.
          Returns-branch (λ _. Returns-fatal os 103 (inr (inl refl)))
            λ _.
              Returns-branch (λ _. Returns-fatal os 103 (inr (inl refl)))
                λ _. Returns-pure _ (record {
                  asked = a.asked;
                  read = ap (λ q. cstr (take 8191 q.text)) (sym a.same);
                })

  available_guesstimate-Returns :
      (buf : Bytes) → Returns (IsGuess buf) IsMeminfoError (available_guesstimate os buf)
  unfolding available_guesstimate
  available_guesstimate-Returns buf = Returns-bind (get_entry_fatal-Returns _ buf) λ cached hc.
      Returns-bind (get_entry_fatal-Returns _ buf) λ mem_free hf.
        Returns-bind (get_entry_fatal-Returns _ buf) λ buffers hb.
          Returns-bind (get_entry_fatal-Returns _ buf) λ shmem hs. Returns-pure _ (record {
            mem_free = mem_free;
            cached = cached;
            buffers = buffers;
            shmem = shmem;
            reads_free = hf;
            reads_cached = hc;
            reads_buffers = hb;
            reads_shmem = hs;
            sum = ground arith;
          })

  mem_available_or_guess-Returns :
      (buf : Bytes) → Returns (IsAvailable buf) IsMeminfoError (mem_available_or_guess os buf)
  unfolding mem_available_or_guess
  mem_available_or_guess-Returns buf = Returns-bind (get_entry-Returns _ buf) λ v e.
      Returns-branch
        (λ low. Returns-bind (available_guesstimate-Returns buf) λ guess g.
          Returns-bind (Returns-gets _) λ warned _.
            Returns-bind
              (Returns-branch {Q = Any} (λ _. Returns-pure tt tt)
                λ _. Returns-bind (Returns-say os _) λ _ _. Returns-modify _)
              λ _ _. Returns-pure guess (inr (rw (sym e) (ground arith), g)))
        (λ ok. Returns-pure v (inl (record { value = sym e; nonneg = ground arith })))

module _ {W : Type 0} ⦃d : Double W⦄ where
  open d use {of_int, mul, div}

  -- What holds of every record that is returned: its amounts are those of one look at the file, and
  -- the shares are quotients of them, 0 where there is no swap.
  pub record IsValid (os : Os) (m : MemInfo W) : Type 0 where
    pub text : Bytes
    pub is_text : IsText os text
    pub mem_total : IsEntry (codes "MemTotal:") text m.mem_total
    pub swap_total : IsEntry (codes "SwapTotal:") text m.swap_total
    pub anon_pages : IsEntry (codes "AnonPages:") text m.anon_pages
    pub swap_free : IsEntry (codes "SwapFree:") text m.swap_free
    pub mem_available : IsAvailable text m.mem_available
    pub user_mem_total : m.user_mem_total ≡ m.mem_available +ℤ m.anon_pages
    pub mem_percent :
        m.mem_available_percent
        ≡ div (mul (of_int m.mem_available) (of_int (pos 100))) (of_int m.user_mem_total)
    pub swap_percent :
        ((pos 0 <ℤ m.swap_total)
          × (m.swap_free_percent
              ≡ div (mul (of_int m.swap_free) (of_int (pos 100))) (of_int m.swap_total)))
        ⊎ ((m.swap_total ≡ pos 0) × (m.swap_free_percent ≡ zero_of d))

  swap_share :
      (swap_free swap_total : ℤ)
      → pos 0 ≤ℤ swap_total
      → let p = if ltb_ℤ (pos 0) swap_total then percent swap_free swap_total else of_int (pos 0) in
        ((pos 0 <ℤ swap_total)
          × (p ≡ div (mul (of_int swap_free) (of_int (pos 100))) (of_int swap_total)))
        ⊎ ((swap_total ≡ pos 0) × (p ≡ zero_of d))
  swap_share swap_free swap_total h = elim (Bool-cases (ltb_ℤ (pos 0) swap_total)) [
    | inl e ↦ inl (ground arith, rw e refl)
    | inr e ↦ inr (ground arith, rw e refl)
  ]

  -- Whatever the file holds, the record that is returned is valid: its amounts stand in the text that
  -- one read of the file gave, the available memory, where it does not, is what is free, cached and
  -- in buffers less what is shared, and the shares are those of the amounts; or the process ends with
  -- one of the three statuses.
  pub parse_meminfo-IsValid :
      (os : Os) → Returns (λ (m : MemInfo W). IsValid os m) IsMeminfoError (parse_meminfo os)
  unfolding parse_meminfo mem_info
  parse_meminfo-IsValid os = Returns-bind (read_meminfo-Returns os) λ buf read.
      Returns-bind (get_entry_fatal-Returns os _ buf) λ mem_total h1.
        Returns-bind (get_entry_fatal-Returns os _ buf) λ swap_total h2.
          Returns-bind (get_entry_fatal-Returns os _ buf) λ anon_pages h3.
            Returns-bind (get_entry_fatal-Returns os _ buf) λ swap_free h4.
              Returns-bind (mem_available_or_guess-Returns os buf) λ mem_available h5.
                Returns-pure _ (record {
                  text = buf;
                  is_text = read;
                  mem_total = h1;
                  swap_total = h2;
                  anon_pages = h3;
                  swap_free = h4;
                  mem_available = h5;
                  user_mem_total = refl;
                  mem_percent = refl;
                  swap_percent = swap_share swap_free swap_total h2.nonneg;
                })
