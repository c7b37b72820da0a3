-- ===== src/Sigchld/Race.antt =====
-- `get_entry` and `get_entry_fatal` of meminfo.c where SIGCHLD arrives behind `strtoll` and before the
-- look at `errno`. The handler does not save `errno`.
use earlyoom.Prelude.{
  ℕ, zero, suc, ◌+◌, ◌≤◌, ◌≡◌, refl, Bool-cases, Bool, true, false, not, none, some, List, inl, inr,
  arith, ◌==◌, length, drop,
}
use earlyoom.Prelude.Int.{ℤ, pos, ◌≤ℤ◌, ltb_ℤ, leb_ℤ}
use earlyoom.Prelude.Text.{Bytes, strstr}
use earlyoom.Machine.{
  wait_any, Event, Os, Machine, done, exited, Action, pure, branch, ◌>>=◌, ◌>>◌, skip, set_errno,
  gets, call, warn, say, fatal, failed, enodata, erange, minus,
}
use earlyoom.MemInfo.{strtoll, entry, note_errno, get_entry, get_entry_fatal}
use earlyoom.Sigchld.{handle_sigchld}
use earlyoom.Sigchld.Ends.{reaped, HasChildren, reaped-wait_any}

abbrev pub echild : ℕ
echild = 10

-- What `get_entry` returns, from `errno` behind `strtoll`.
unfoldable pub value_or_error : Os → ℤ → ℕ → Action ℤ
value_or_error os val e = branch (not (e == 0)) (warn os >> pure (minus e)) (pure val)

module _ (os : Os) (rounds : ℕ) where
  -- From `errno = 0` on; what `strtoll` gives is known.
  unfoldable pub convert_at_sigchld : ℤ × Bool → Action ℤ
  convert_at_sigchld (val, out_of_range) = do
    set_errno 0
    branch out_of_range (set_errno erange) skip
    handle_sigchld os rounds
    e ← gets (λ m. m.errno)
    value_or_error os val e

  unfoldable pub get_entry_at_sigchld : Bytes → Bytes → Action ℤ
  get_entry_at_sigchld name buf = elim (strstr buf name) [
    | none ↦ pure (minus enodata)
    | some hit ↦ convert_at_sigchld (strtoll (drop (length name) hit))
  ]

  unfoldable pub get_entry_fatal_at_sigchld : Bytes → Bytes → Action ℤ
  get_entry_fatal_at_sigchld name buf = do
    val ← get_entry_at_sigchld name buf
    branch (ltb_ℤ val (pos 0)) (warn os >> fatal os 104) (pure val)

-- No child is left running: where `waitpid` gives no child, it fails with ECHILD.
pub record IsChildless (os : Os) : Type 0 where
  pub fails :
      (t : List Event) → leb_ℤ (os t wait_any).ret (pos 0) ≡ true → failed (os t wait_any) ≡ true
  pub echild_err :
      (t : List Event) → leb_ℤ (os t wait_any).ret (pos 0) ≡ true → (os t wait_any).err ≡ echild

module _ (os : Os) (children : ℕ) (has : HasChildren os children) (childless : IsChildless os) where
  record Clobbered (rounds : ℕ) (m : Machine) : Type 0 where
    after : Machine
    runs : handle_sigchld os rounds m ≡ (done true, after)
    errno : after.errno ≡ echild

  stops :
      (rounds : ℕ) (m : Machine)
      → leb_ℤ (os m.trace wait_any).ret (pos 0) ≡ true
      → Clobbered (suc rounds) m
  unfolding handle_sigchld ◌>>=◌ call
  stops rounds m e =
      let after : Machine = (call os wait_any m).1 in
      record {
        after = after;
        runs = rw e refl;
        errno = rw (childless.fails m.trace e) (childless.echild_err m.trace e);
      }

  handler_clobbers :
      (rounds : ℕ) (m : Machine) → children ≤ rounds + reaped m.trace → Clobbered (suc rounds) m
  unfolding handle_sigchld ◌>>=◌ call
  handler_clobbers zero m h = stops zero m (has.most m.trace (omega (arith, h)))
  handler_clobbers (suc rounds) m h = elim (Bool-cases (leb_ℤ (os m.trace wait_any).ret (pos 0))) [
    | inl e ↦ stops (suc rounds) m e
    | inr e ↦
        let next : Machine = (call os wait_any m).1 in
        let more = reaped-wait_any (os m.trace wait_any) m.trace e in
        let rest = handler_clobbers rounds next (omega (arith, h, more)) in
        record { after = rest.after; runs = rw e rest.runs; errno = rest.errno }
  ]

  echild_fails :
      (val : ℤ) (e : ℕ) (m : Machine)
      → e ≡ echild
      → value_or_error os val e m ≡ (done (minus echild), (warn os m).1)
  unfolding value_or_error ◌>>=◌ say
  echild_fails val e m h = rw h refl

  -- The state in which the conversion leaves the program, with -ECHILD for its value.
  convert_fails :
      (val : ℤ) (out_of_range : Bool) (m : Machine)
      → (after : Machine) × (convert_at_sigchld os (suc children) (val, out_of_range) m
          ≡ (done (minus echild), after))
  unfolding convert_at_sigchld ◌>>=◌
  convert_fails val true m =
      let c = handler_clobbers children (record m { errno = erange }) (omega arith) in
      ((warn os c.after).1, rw c.runs (echild_fails val c.after.errno c.after c.errno))
  convert_fails val false m =
      let c = handler_clobbers children (record m { errno = 0 }) (omega arith) in
      ((warn os c.after).1, rw c.runs (echild_fails val c.after.errno c.after c.errno))

  reads_entry :
      (name buf hit : Bytes) (val : ℤ) (m : Machine)
      → strstr buf name ≡ some hit
      → strtoll (drop (length name) hit) ≡ (val, false)
      → pos 0 ≤ℤ val
      → (get_entry_fatal os name buf m).0 ≡ done val
  unfolding get_entry_fatal get_entry entry note_errno ◌>>=◌
  reads_entry name buf hit val m found reads sign =
      let there : ltb_ℤ val (pos 0) ≡ false = ground arith in
      rw (found, entry) (rw reads (rw there refl))

  -- An entry of /proc/meminfo that is read without a signal is taken to be missing, and the daemon
  -- ends with status 104, where SIGCHLD arrives between `strtoll` and the look at `errno` and the
  -- handler finds that no child is left.
  pub get_entry_fatal_at_sigchld_dies :
      (name buf hit : Bytes) (val : ℤ) (m : Machine)
      → strstr buf name ≡ some hit
      → strtoll (drop (length name) hit) ≡ (val, false)
      → pos 0 ≤ℤ val
      → ((get_entry_fatal os name buf m).0 ≡ done val)
        × ((get_entry_fatal_at_sigchld os (suc children) name buf m).0 ≡ exited 104)
  unfolding get_entry_fatal_at_sigchld get_entry_at_sigchld ◌>>=◌ fatal
  get_entry_fatal_at_sigchld_dies name buf hit val m found reads sign =
      let (after, e) = convert_fails val false m in
      (
        reads_entry name buf hit val m found reads sign,
        rw (found, get_entry_at_sigchld) (rw reads (rw e refl)),
      )
