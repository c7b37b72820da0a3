-- ===== src/Contrib/MmapTest/Inside.antt =====
-- contrib/mmap_test/mmap_test.c: the addresses of its reads, and the fuel of its loop.
use earlyoom.Prelude.{
  ℕ, zero, suc, ◌+◌, ◌*◌, ◌≤◌, ◌≡◌, ◌⊎◌, inl, inr, Bool, true, false, refl, List, arith,
}
use earlyoom.Prelude.Int.{ℤ, pos, ◌+ℤ◌, ◌≤ℤ◌, ◌<ℤ◌, ltb_ℤ}
use earlyoom.Machine.{Call, tool, load, fstat, Event, Os, call, warn, exit, ◌>>◌}
use earlyoom.Machine.Returns.{
  Returns, Any, Returns-pure, Returns-exit, Returns-branch, Returns-bind, Returns-call, Returns-say,
}
use earlyoom.Machine.Calls.{Calls, Calls-pure, Calls-bind, Calls-branch, calls_rules}
use earlyoom.Contrib.MmapTest.{load_byte, read_mapping, mmap_test}

-- No read outside of so many bytes at the address.
abbrev pub IsLoadInside : ℤ → ℤ → Call → Type 0
IsLoadInside addr size (tool (load address)) = (addr ≤ℤ address) × (address <ℤ (addr +ℤ size))
IsLoadInside addr size _ = Unit

module _ (os : Os) (addr : ℤ) (size : ℕ) where
  load_byte-Calls :
      (address : ℤ)
      → (addr ≤ℤ address) × (address <ℤ (addr +ℤ pos size))
      → Calls (IsLoadInside addr (pos size)) (load_byte os address)
  unfolding load_byte
  load_byte-Calls address h = search (calls_rules, h) depth 14

  offset_inside :
      (i : ℕ)
      → ltb_ℤ (pos i) (pos size) ≡ true
      → (addr ≤ℤ (addr +ℤ pos i)) × ((addr +ℤ pos i) <ℤ (addr +ℤ pos size))
  offset_inside i h = ground arith

  -- Whatever the kernel answers and however much fuel there is, the loop of mmap_test reads no byte
  -- outside of the mapping.
  pub read_mapping-IsLoadInside :
      (fuel i : ℕ)
      → Calls (IsLoadInside addr (pos size)) (read_mapping os fuel addr (pos size) (pos i))
  unfolding read_mapping
  read_mapping-IsLoadInside zero i = Calls-pure false
  read_mapping-IsLoadInside (suc fuel) i =
      Calls-branch (λ _. Calls-pure true)
        λ e.
          let next : pos i +ℤ pos 1024 ≡ pos (i + 1024) = ground arith in
          Calls-bind (load_byte-Calls _ (offset_inside i (ground arith)))
            λ _. rw next (read_mapping-IsLoadInside fuel (i + 1024))

-- The size of the file, at most so many bytes.
pub record HasSize (os : Os) (bytes : ℕ) : Type 0 where
  pub most : (t : List Event) (fd : ℤ) → (os t (tool (fstat fd))).number ≤ bytes

-- 0 to 3, or a signal.
abbrev pub IsEnd : ℕ → Type 0
IsEnd code = (code ≤ 3) ⊎ (128 ≤ code)

module _ (os : Os) where
  load_byte-Returns : (address : ℤ) → Returns Any IsEnd (load_byte os address)
  unfolding load_byte
  load_byte-Returns address =
      Returns-bind (Returns-call os _)
        λ r _. Returns-branch (λ _. Returns-exit _ (inr (omega arith))) λ _. Returns-pure tt tt

  read_mapping-ends :
      (fuel : ℕ) (addr : ℤ) (size i : ℕ)
      → size ≤ i + fuel * 1024
      → Returns (λ ended. ended ≡ true) IsEnd (read_mapping os (suc fuel) addr (pos size) (pos i))
  unfolding read_mapping
  read_mapping-ends zero addr size i h =
      Returns-branch (λ _. Returns-pure true refl) λ e. absurd (ground arith)
  read_mapping-ends (suc fuel) addr size i h =
      Returns-branch (λ _. Returns-pure true refl)
        λ _.
          let next : pos i +ℤ pos 1024 ≡ pos (i + 1024) = ground arith in
          Returns-bind (load_byte-Returns _)
            λ _ _. rw next (read_mapping-ends fuel addr size (i + 1024) (omega arith))

  give_up : (code : ℕ) → code ≤ 3 → Returns {A = Bool} (λ _. ⊥) IsEnd (warn os >> exit code)
  give_up code h = Returns-bind (Returns-say os _) λ _ _. Returns-exit code (inl h)

  fstat-small :
      (bytes : ℕ) (fd : ℤ)
      → HasSize os bytes
      → Returns (λ st. st.number ≤ bytes) IsEnd (call os (tool (fstat fd)))
  unfolding call
  fstat-small bytes fd sized = record { at = λ m. sized.most m.trace fd }

  -- Where the file holds at most 1 KiB for each step of the fuel, mmap_test ends the process with one
  -- more step, whatever else the kernel answers: with a status from 0 to 3, or by the signal of a
  -- read that faults.
  pub mmap_test_ends :
      (bytes fuel : ℕ)
      → HasSize os bytes
      → bytes ≤ fuel * 1024
      → Returns {A = Bool} (λ _. ⊥) IsEnd (mmap_test os (suc fuel))
  unfolding mmap_test
  mmap_test_ends bytes fuel sized enough = Returns-bind (Returns-call os _) λ fd _.
      Returns-branch (λ _. give_up 1 (omega arith))
        λ _. Returns-bind (fstat-small bytes fd.ret sized) λ st small.
          Returns-branch (λ _. give_up 2 (omega arith))
            λ _. Returns-bind (Returns-call os _) λ addr _.
              Returns-branch (λ _. give_up 3 (omega arith))
                λ _. Returns-bind (Returns-call os _) λ _ _. Returns-bind (Returns-say os _) λ _ _.
                  Returns-bind (read_mapping-ends fuel addr.ret st.number 0 (omega arith))
                    λ ended e.
                      Returns-branch (λ no_end. absurd (ground arith))
                        λ _. Returns-bind (Returns-say os _) λ _ _.
                          Returns-bind (Returns-call os _) λ _ _.
                            Returns-bind (Returns-call os _) λ _ _.
                              Returns-bind (Returns-call os _)
                                λ _ _. Returns-exit 0 (inl (omega arith))
