-- ===== src/Sigchld/Ends.antt =====
-- main.c: the loop of `handle_sigchld`.
use earlyoom.Prelude.{
  ℕ, zero, suc, ◌+◌, ◌≤◌, ◌≡◌, refl, Bool-cases, true, false, List, [], ◌∷◌, inl, inr, arith,
  if◌then◌else◌,
}
use earlyoom.Prelude.Int.{pos, leb_ℤ}
use earlyoom.Machine.{wait_any, Event, Reply, Os, Machine, done, pure, branch, ◌>>=◌, call}
use earlyoom.Sigchld.{handle_sigchld}

-- How many children were waited for by the handler.
unfoldable pub reaped : List Event → ℕ
reaped [] = 0
reaped ((wait_any, r) ∷ events) =
    let rest = reaped events in if leb_ℤ r.ret (pos 0) then rest else suc rest
reaped (e ∷ events) = reaped events

-- No more than so many children end.
pub record HasChildren (os : Os) (children : ℕ) : Type 0 where
  pub most : (t : List Event) → children ≤ reaped t → leb_ℤ (os t wait_any).ret (pos 0) ≡ true

pub reaped-wait_any :
    (r : Reply) (t : List Event)
    → leb_ℤ r.ret (pos 0) ≡ false
    → reaped ((wait_any, r) ∷ t) ≡ suc (reaped t)
unfolding reaped
reaped-wait_any r t e = rw e refl

module _ (os : Os) (children : ℕ) (has : HasChildren os children) where
  rounds_end :
      (rounds : ℕ) (m : Machine)
      → children ≤ rounds + reaped m.trace
      → (handle_sigchld os (suc rounds) m).0 ≡ done true
  unfolding handle_sigchld ◌>>=◌ call pure branch
  rounds_end zero m h = rw (has.most m.trace (omega (arith, h))) refl
  rounds_end (suc rounds) m h = elim (Bool-cases (leb_ℤ (os m.trace wait_any).ret (pos 0))) [
    | inl e ↦ rw e refl
    | inr e ↦
        let after : Machine = (call os wait_any m).1 in
        let more = reaped-wait_any (os m.trace wait_any) m.trace e in
        let enough : children ≤ rounds + reaped after.trace = omega (arith, h, more) in
        rw e (rounds_end rounds after enough)
  ]

  -- Where no more than so many children ever end, the handler comes to its end, after one round for
  -- each child and one more.
  pub handle_sigchld_ends : (m : Machine) → (handle_sigchld os (suc children) m).0 ≡ done true
  handle_sigchld_ends m = rounds_end children m (omega arith)
