-- ===== src/Contrib/KeepActive/Ends.antt =====
-- contrib/membomb/keep_active.c: the fuel of its loops.
use earlyoom.Prelude.{
  ℕ, zero, suc, ◌+◌, ◌*◌, ◌≤◌, ◌≡◌, Bool, true, refl, List, arith, ◌⊎◌, inl, inr,
}
use earlyoom.Prelude.Int.{ℤ, pos, negsuc, ◌+ℤ◌, ◌≤ℤ◌}
use earlyoom.Machine.{Event, Os, sysconf_pagesize, call, warn, exit, ◌>>◌}
use earlyoom.Machine.Returns.{
  Returns, Any, Returns-pure, Returns-exit, Returns-branch, Returns-bind, Returns-call, Returns-say,
}
use earlyoom.Contrib.{Time, undefined, divided, time_of_day}
use earlyoom.Contrib.KeepActive.{file_size, read_pages, spin_round, spin, keep_active}

-- The pages have at least so many bytes.
pub record HasPages (os : Os) (page : ℕ) : Type 0 where
  pub least : (t : List Event) → pos page ≤ℤ (os t sysconf_pagesize).ret

-- The loop came to its end; the process ends by `exit(1)`, or by the division by a time of 0.
abbrev pub IsTrue : Bool → Type 0
IsTrue b = b ≡ true

abbrev pub IsExit : ℕ → Type 0
IsExit code = (code ≡ 1) ⊎ (code ≡ 136)

module _ (os : Os) where
  give_up-Returns : {A : Type 0} {Q : A → Type 0} → Returns Q IsExit (warn os >> exit 1)
  give_up-Returns = Returns-bind (Returns-say os _) λ _ _. Returns-exit 1 (inl refl)

  divided-Returns : (a b : ℤ) → Returns Any IsExit (divided os a b)
  unfolding divided undefined
  divided-Returns a b =
      Returns-branch
        (λ _.
          Returns-bind (Returns-call os _)
            λ r _. Returns-branch (λ _. Returns-exit _ (inr refl)) λ _. Returns-pure _ tt)
        λ _. Returns-pure _ tt

  time_of_day-Returns : Returns Any IsExit (time_of_day os)
  unfolding time_of_day
  time_of_day-Returns = Returns-bind (Returns-call os _) λ r _. Returns-pure _ tt

  -- What is left of the file is no more than the fuel times a page.
  read_pages-ends :
      (fuel : ℕ) (fd : ℤ) (size page increment off : ℕ)
      → page ≤ increment
      → size ≤ off + fuel * page
      → Returns IsTrue IsExit (read_pages os (suc fuel) fd (pos size) (pos increment) (pos off))
  unfolding read_pages
  read_pages-ends zero fd size page increment off h k =
      Returns-branch (λ _. Returns-pure true refl) λ e. absurd (ground arith)
  read_pages-ends (suc fuel) fd size page increment off h k =
      Returns-branch (λ _. Returns-pure true refl)
        λ _. Returns-bind (Returns-call os _) λ r _.
          Returns-branch (λ _. give_up-Returns)
            λ _.
              let next : pos off +ℤ pos increment ≡ pos (off + increment) = ground arith in
              rw next
                (read_pages-ends fuel fd size page increment (off + increment) h (grind arith))

module _ (os : Os) (page : ℕ) (pages : HasPages os page) (fuel : ℕ)
    (enough : 10737418240 ≤ fuel * page) where
  page_size-least : Returns (λ r. pos page ≤ℤ r.ret) IsExit (call os sysconf_pagesize)
  unfolding call
  page_size-least = record { at = λ m. pages.least m.trace }

  no_pages : (n : ℕ) → pos page ≤ℤ negsuc n → ⊥
  no_pages n h = omega (arith, enough, h)

  pass-ends :
      (fd increment : ℤ)
      → pos page ≤ℤ increment
      → Returns IsTrue IsExit (read_pages os (suc fuel) fd file_size increment (pos 0))
  pass-ends fd (pos n) h =
      read_pages-ends os fuel fd 10737418240 page n 0 (omega arith) (omega arith)
  pass-ends fd (negsuc n) h = absurd (no_pages n h)

  spin_round-ends :
      (fd : ℤ) (tv1 : Time) → Returns (λ r. IsTrue r.0) IsExit (spin_round os (suc fuel) fd tv1)
  unfolding spin_round
  spin_round-ends fd tv1 = Returns-bind page_size-least λ increment h.
      Returns-bind (pass-ends fd increment.ret h) λ ended e.
        Returns-branch (λ no_end. absurd (ground arith))
          λ _. Returns-bind (time_of_day-Returns os) λ tv2 _.
            Returns-bind (divided-Returns os _ _) λ mbps _.
              Returns-bind (Returns-say os _)
                λ _ _. Returns-bind (time_of_day-Returns os) λ tv1' _. Returns-pure _ refl

  spin-ends :
      (rounds : ℕ) (fd : ℤ) (tv1 : Time) → Returns IsTrue IsExit (spin os rounds (suc fuel) fd tv1)
  unfolding spin
  spin-ends zero fd tv1 = Returns-pure true refl
  spin-ends (suc rounds) fd tv1 =
      Returns-bind (spin_round-ends fd tv1)
        λ r e. Returns-branch (λ _. spin-ends rounds fd r.1) λ no_end. absurd (ground arith)

  -- Where the pages have at least `page` bytes, and so many of them as the fuel says hold 10 GiB,
  -- every pass over the file comes to its end with one more step, in any number of rounds, or the
  -- process ends by `exit(1)` or by the division by a time of 0.
  pub keep_active_ends : (rounds : ℕ) → Returns IsTrue IsExit (keep_active os rounds (suc fuel))
  unfolding keep_active
  keep_active_ends rounds = Returns-bind (Returns-call os _) λ fd _.
      Returns-branch (λ _. give_up-Returns os)
        λ _. Returns-bind (Returns-call os _) λ removed _.
          Returns-branch (λ _. give_up-Returns os)
            λ _. Returns-bind (Returns-call os _) λ allocated _.
              Returns-branch (λ _. give_up-Returns os)
                λ _. Returns-bind (Returns-call os _) λ _ _. Returns-bind (Returns-say os _) λ _ _.
                  Returns-bind (Returns-say os _) λ _ _.
                    Returns-bind (time_of_day-Returns os) λ tv1 _. spin-ends rounds fd.ret tv1
