-- ===== src/Select/Victim.antt =====
-- The process that `find_largest_process` gives.
use earlyoom.Prelude.{
  ◌≡◌, refl, Bool, true, false, ◌&&◌, ◌⊎◌, inl, inr, List, [], ◌∷◌, arith, if◌then◌else◌,
}
use earlyoom.Prelude.Int.{ℤ, pos, negsuc, ltb_ℤ, ◌==ℤ◌, ◌<ℤ◌, ◌≤ℤ◌}
use earlyoom.Prelude.Text.{Bytes}
use earlyoom.Args.{Args}
use earlyoom.Machine.{Os}
use earlyoom.Machine.Returns.{
  Returns, Any, Returns-pure, Returns-branch, Returns-bind, Returns-Any, Returns-weaken,
  Returns-fatal,
}
use earlyoom.Select.{
  ProcInfo, field_not_set, empty_procinfo, zero_procinfo, fill_informative_fields,
  debug_print_procinfo, fresh, consider, scan_names, find_largest_process,
}
use earlyoom.Select.Target.{IsTarget, is_larger-IsTarget}

-- A uid that is set stays as it is.
kept_uid :
    (old uid : ℤ)
    → ((old ==ℤ field_not_set) ≡ false → uid ≡ old)
    → pos 0 <ℤ old
    → pos 0 <ℤ (if old ==ℤ field_not_set && ltb_ℤ uid (pos 0) then old else uid)
kept_uid (pos n) uid h p = rw (h (ground arith)) (ground arith)
kept_uid (negsuc n) uid h p = absurd (omega arith)

module _ {W : Type 0} (os : Os) (args : Args W) where
  -- No process, or one that may be killed.
  abbrev pub IsVictim : ProcInfo → Type 0
  IsVictim v = (v.pid ≤ℤ pos 0) ⊎ IsTarget args v

  abbrev Same : (ProcInfo → Type 0) → Type 0
  Same Q = (c : ProcInfo) → Q c → Returns Q Any (fill_informative_fields os c)

  fill_keeps_IsTarget : Same (IsTarget args)
  unfolding fill_informative_fields
  fill_keeps_IsTarget c t = Returns-bind (Returns-Any _) λ name _.
      Returns-bind (Returns-Any _) λ cmdline _.
        Returns-bind {Q = λ uid. (c.uid ==ℤ field_not_set) ≡ false → uid ≡ c.uid}
          (Returns-branch (λ e. Returns-weaken (Returns-Any _) λ uid _ f. cc)
            (λ e. Returns-pure c.uid (λ _. refl)))
          λ uid same. Returns-pure _ (record {
            not_init = t.not_init;
            not_root = elim t.not_root [ inl i ↦ inl i | inr p ↦ inr (kept_uid c.uid uid same p) ];
            not_kernel_thread = t.not_kernel_thread;
            not_exempt = t.not_exempt;
          })

  fill_keeps_IsVictim : Same IsVictim
  unfolding fill_informative_fields
  fill_keeps_IsVictim c (inl none_found) = Returns-bind (Returns-Any _) λ name _.
      Returns-bind (Returns-Any _)
        λ cmdline _. Returns-bind (Returns-Any _) λ uid _. Returns-pure _ (inl none_found)
  fill_keeps_IsVictim c (inr t) = Returns-weaken (fill_keeps_IsTarget c t) λ v t'. inr t'

  debug_keeps :
      (larger : Bool) (c : ProcInfo)
      → (larger ≡ true → IsTarget args c)
      → Returns (λ c'. larger ≡ true → IsTarget args c') Any (debug_print_procinfo os c)
  unfolding debug_print_procinfo
  debug_keeps false c h = Returns-weaken (Returns-Any _) λ c' _ e. cc
  debug_keeps true c h = Returns-bind (Returns-Any _) λ debug _.
      Returns-branch (λ _. Returns-weaken (fill_keeps_IsTarget c (h refl)) λ c' t _. t)
        (λ _. Returns-pure c h)

  choose-IsVictim :
      (larger : Bool) (c victim : ProcInfo)
      → (larger ≡ true → IsTarget args c)
      → IsVictim victim
      → IsVictim (if larger then c else victim)
  choose-IsVictim true c victim h v = inr (h refl)
  choose-IsVictim false c victim h v = v

  consider-IsVictim :
      (name : Bytes) (victim : ProcInfo)
      → IsVictim victim
      → Returns IsVictim Any (consider os args name victim)
  unfolding consider
  consider-IsVictim name victim v =
      Returns-branch (λ _. Returns-pure victim v)
        λ _. Returns-bind (is_larger-IsTarget os args victim (fresh os args name)).returns λ r t.
          Returns-bind (debug_keeps r.0 r.1 t)
            λ c' t'. Returns-pure _ (choose-IsVictim r.0 c' victim t' v)

  scan_names-IsVictim :
      (names : List Bytes) (victim : ProcInfo)
      → IsVictim victim
      → Returns IsVictim Any (scan_names os args names victim)
  unfolding scan_names
  scan_names-IsVictim [] victim v = Returns-pure victim v
  scan_names-IsVictim (name ∷ names) victim v = Returns-bind (Returns-Any _) λ _ _.
      Returns-bind (consider-IsVictim name victim v)
        λ victim' v'. scan_names-IsVictim names victim' v'

  choose_other :
      (self : Bool) (victim : ProcInfo)
      → IsVictim victim
      → IsVictim (if self then zero_procinfo else victim)
  choose_other true victim v = inl (omega arith)
  choose_other false victim v = v

  -- Whatever the kernel answers, `find_largest_process` gives no process (a pid of 0 or less), or one
  -- that is not init or kthreadd, not a kernel thread, not exempt by its oom_score_adj, and not
  -- root's under --ignore-root-user.
  pub find_largest_process-IsVictim : Returns IsVictim Any (find_largest_process os args)
  unfolding find_largest_process
  find_largest_process-IsVictim = Returns-bind (Returns-Any _) λ dir _.
      Returns-branch (λ _. Returns-fatal os 5 tt)
        λ _.
          Returns-bind (scan_names-IsVictim dir.names empty_procinfo (inl (omega arith)))
            λ victim v. Returns-bind (Returns-Any _) λ _ _. Returns-bind (Returns-Any _) λ _ _.
              Returns-bind (Returns-Any _) λ self _. Returns-bind (Returns-Any _) λ _ _.
                let chosen = choose_other (victim.pid ==ℤ self.ret) victim v in
                Returns-branch (λ _. fill_keeps_IsVictim _ chosen) (λ _. Returns-pure _ chosen)
