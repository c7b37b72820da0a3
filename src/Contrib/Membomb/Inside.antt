-- ===== src/Contrib/Membomb/Inside.antt =====
-- contrib/membomb/eat_all_memory.c: the addresses of its stores.
use earlyoom.Prelude.{ℕ, zero, suc, ◌+◌, ◌*◌, ◌≤◌, ◌<◌, ◌≡◌, arith, some}
use earlyoom.Prelude.Int.{ℤ, pos, negsuc, ◌+ℤ◌, ◌*ℤ◌, ◌≤ℤ◌, ◌<ℤ◌}
use earlyoom.Machine.{Call, tool, store, Os}
use earlyoom.Machine.Calls.{Calls, Calls-pure, Calls-bind, Calls-branch, calls_rules}
use earlyoom.Contrib.{undefined, divided, remainder, time_of_day}
use earlyoom.Contrib.Membomb.{Bomb, store_byte, touch_pages, print_speed, fill_block}

-- No store outside of so many bytes at the address.
abbrev pub IsInside : ℤ → ℤ → Call → Type 0
IsInside p size (tool (store address byte)) = (p ≤ℤ address) × (address <ℤ (p +ℤ size))
IsInside p size _ = Unit

offset_inside :
    (p : ℤ) (x size : ℕ) → suc x ≤ size → (p ≤ℤ (p +ℤ pos x)) × ((p +ℤ pos x) <ℤ (p +ℤ pos size))
offset_inside (pos a) x size h = (ground arith, ground arith)
offset_inside (negsuc a) x size h = (ground arith, ground arith)

page_inside :
    (p : ℤ) (i n s : ℕ)
    → i < n
    → 0 < s
    → (p ≤ℤ (p +ℤ pos i *ℤ pos s)) × ((p +ℤ pos i *ℤ pos s) <ℤ (p +ℤ pos s *ℤ pos n))
page_inside p i n s h k =
    let below : suc (i * s) ≤ s * n = grind arith in
    let e : pos i *ℤ pos s ≡ pos (i * s) = ground arith in
    let e' : pos s *ℤ pos n ≡ pos (s * n) = ground arith in
    rw (e, e') (offset_inside p (i * s) (s * n) below)

module _ (os : Os) (p size : ℤ) where
  store_byte-Calls :
      (address : ℤ) (byte : ℕ)
      → (p ≤ℤ address) × (address <ℤ (p +ℤ size))
      → Calls (IsInside p size) (store_byte os address byte)
  unfolding store_byte
  store_byte-Calls address byte h = search (calls_rules, h) depth 14

  undefined-Calls : Calls (IsInside p size) (undefined os)
  unfolding undefined
  undefined-Calls = search (calls_rules, tt) depth 14

  divided-Calls : (a b : ℤ) → Calls (IsInside p size) (divided os a b)
  unfolding divided
  divided-Calls a b = search (calls_rules, undefined-Calls) depth 14

  remainder-Calls : (a b : ℤ) → Calls (IsInside p size) (remainder os a b)
  unfolding remainder
  remainder-Calls a b = search (calls_rules, undefined-Calls) depth 14

  time_of_day-Calls : Calls (IsInside p size) (time_of_day os)
  unfolding time_of_day
  time_of_day-Calls = search (calls_rules, tt) depth 14

  print_speed-Calls : (b : Bomb) → Calls (IsInside p size) (print_speed os b)
  unfolding print_speed
  print_speed-Calls b = search (calls_rules, divided-Calls, time_of_day-Calls, tt) depth 14

module _ (os : Os) (p : ℤ) (n s : ℕ) (nonempty : 0 < s) where
  touch_pages-Calls :
      (pages i : ℕ)
      → i + pages ≤ n
      → Calls (IsInside p (pos s *ℤ pos n)) (touch_pages os pages p (pos s) i)
  unfolding touch_pages
  touch_pages-Calls zero i h = Calls-pure tt
  touch_pages-Calls (suc pages) i h =
      Calls-bind (store_byte-Calls os p _ _ _ (page_inside p i n s (omega arith) nonempty))
        λ _. touch_pages-Calls pages (suc i) (omega arith)

-- The sizes that `eat_all_memory` sets: a block is so many pages.
pub record IsWhole (b : Bomb) (s : ℕ) : Type 0 where
  pub page : b.page_size ≡ pos s
  pub nonempty : 0 < s
  pub block : b.bs ≡ pos s *ℤ pos b.num_pages

-- Where a block has as many bytes as its pages have, what follows in the round stores nothing outside
-- of the block, whatever the kernel answers.
pub fill_block-IsInside :
    (os : Os) (b : Bomb) (s : ℕ) (p : ℤ)
    → IsWhole b s
    → Calls (IsInside p b.bs) (fill_block os b (some p))
unfolding fill_block
fill_block-IsInside os b s p w =
    rw (w.page, w.block)
      (Calls-bind (touch_pages-Calls os p b.num_pages s w.nonempty b.num_pages 0 (omega arith))
        λ touched. Calls-bind (divided-Calls os p _ _ _) λ q.
          Calls-bind (remainder-Calls os p _ _ _)
            λ r. Calls-branch (λ _. print_speed-Calls os p _ _) λ _. Calls-pure _)
