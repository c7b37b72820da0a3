-- ===== src/Main/Dry.antt =====
-- main.c: the setting of --dryrun, from the option to the main loop.
use mathlib.Core.Path.{subst}
use earlyoom.Prelude.{
  ℕ, ◌∙◌, ◌≡◌, refl, Bool, true, false, Option, none, some, List, [], ◌∷◌, ◌⊎◌, inl, inr, ◌∈◌,
  Bool-cases, if◌then◌else◌,
}
use earlyoom.Prelude.Int.{pos, ◌==ℤ◌}
use earlyoom.Double.{Double}
use earlyoom.Args.{Args}
use earlyoom.Machine.{Os}
use earlyoom.Machine.Returns.{
  Returns, Any, Returns-Any, Returns-pure, Returns-branch, Returns-bind, Returns-exit,
  Returns-fatal,
}
use earlyoom.MemInfo.{MemInfo}
use earlyoom.Options.{
  LimitOption, mem_percent, swap_percent, mem_size, swap_size, Limits, checked, Outcome, ok,
  fatal_status, take_limit, merge, merge_mem, merge_swap,
}
use earlyoom.Startup.{startup_selftests, test_kill}
use earlyoom.Main.{
  Opt, limit, kill_group, version, priority, help, notify_ext, prehook, report_interval, dryrun,
  syslog, prefer, avoid, ignore, unknown, Clib, Settings, set_limits, take_option, take_options,
  settle,
}

-- --dryrun is set.
abbrev pub IsDry : {W : Type 0} → Limits W → Type 0
IsDry l = l.args.dryrun ≡ true

abbrev IsDryOutcome : {W : Type 0} → Outcome (Limits W) → Type 0
IsDryOutcome (ok l) = IsDry l
IsDryOutcome (fatal_status code) = Unit

checked-IsDry :
    {W E : Type 0} (code : ℕ) (e : Option E) (l : Limits W)
    → IsDry l
    → IsDryOutcome (checked code e l)
checked-IsDry code none l h = h
checked-IsDry code (some e) l h = tt

if-IsDry : {W : Type 0} (b : Bool) (l k : Limits W) → IsDry l → IsDry k → IsDry (if b then l else k)
if-IsDry true l k h g = h
if-IsDry false l k h g = g

module _ {W : Type 0} ⦃d : Double W⦄ (m : MemInfo W) where
  take_limit-IsDry : (o : LimitOption) (l : Limits W) → IsDry l → IsDryOutcome (take_limit m o l)
  unfolding take_limit
  take_limit-IsDry (mem_percent text) l h = checked-IsDry 15 _ _ h
  take_limit-IsDry (swap_percent text) l h = checked-IsDry 16 _ _ h
  take_limit-IsDry (mem_size text) l h = checked-IsDry 15 _ _ h
  take_limit-IsDry (swap_size text) l h =
      checked-IsDry 16 _ _ (if-IsDry (m.swap_total ==ℤ pos 0) l _ h h)

  merge_dryrun : (l : Limits W) → (merge m l).dryrun ≡ l.args.dryrun
  unfolding merge merge_mem merge_swap
  merge_dryrun l = elim (Bool-cases l.have_mem_size) [
    | inl e ↦ elim (Bool-cases l.have_swap_size) [ inl f ↦ rw (e, f) refl | inr f ↦ rw (e, f) refl ]
    | inr e ↦ elim (Bool-cases l.have_swap_size) [ inl f ↦ rw (e, f) refl | inr f ↦ rw (e, f) refl ]
  ]

module _ {W F : Type 0} ⦃d : Double W⦄ (os : Os) (lib : Clib F) (m : MemInfo W) where
  abbrev pub Dry : Settings W → Type 0
  Dry s = IsDry s.limits

  set_limits-Dry :
      (s : Settings W) (o : Outcome (Limits W))
      → IsDryOutcome o
      → Returns Dry Any (set_limits os lib s o)
  unfolding set_limits
  set_limits-Dry s (ok l) h = Returns-pure _ h
  set_limits-Dry s (fatal_status code) h = Returns-fatal os code tt

  take_option-Dry : (o : Opt) (s : Settings W) → Dry s → Returns Dry Any (take_option os lib m o s)
  unfolding take_option
  take_option-Dry (limit o) s h =
      Returns-bind (set_limits-Dry s _ (take_limit-IsDry m o s.limits h))
        λ s' h'. Returns-bind (Returns-Any _) λ _ _. Returns-pure s' h'
  take_option-Dry version s h = Returns-exit 0 tt
  take_option-Dry help s h = Returns-bind (Returns-Any _) λ _ _. Returns-exit 0 tt
  take_option-Dry unknown s h = Returns-bind (Returns-Any _) λ _ _. Returns-exit 13 tt
  take_option-Dry (report_interval text) s h =
      Returns-branch (λ _. Returns-fatal os 14 tt) λ _. Returns-pure _ h
  take_option-Dry kill_group s h = Returns-pure _ h
  take_option-Dry priority s h = Returns-pure _ h
  take_option-Dry (notify_ext path) s h = Returns-pure _ h
  take_option-Dry (prehook path) s h = Returns-pure _ h
  take_option-Dry syslog s h = Returns-pure _ h
  take_option-Dry (prefer text) s h = Returns-pure _ h
  take_option-Dry (avoid text) s h = Returns-pure _ h
  take_option-Dry (ignore text) s h = Returns-pure _ h
  take_option-Dry dryrun s h = Returns-bind (Returns-Any _) λ _ _. Returns-pure _ refl
  take_option-Dry _ s h = Returns-bind (Returns-Any _) λ _ _. Returns-pure _ h

  take_dryrun : (s : Settings W) → Returns Dry Any (take_option os lib m dryrun s)
  unfolding take_option
  take_dryrun s = Returns-bind (Returns-Any _) λ _ _. Returns-pure _ refl

  pub take_options-Dry :
      (options : List Opt) (s : Settings W)
      → Dry s ⊎ (dryrun ∈ options)
      → Returns Dry Any (take_options os lib m options s)
  unfolding take_options
  take_options-Dry [] s (inl h) = Returns-pure s h
  take_options-Dry [] s (inr absent) = absurd absent
  take_options-Dry (o ∷ options) s (inl h) =
      Returns-bind (take_option-Dry o s h) λ s' h'. take_options-Dry options s' (inl h')
  take_options-Dry (o ∷ options) s (inr (inl e)) =
      Returns-bind (subst (λ o. Returns Dry Any (take_option os lib m o s)) e (take_dryrun s))
        λ s' h'. take_options-Dry options s' (inl h')
  take_options-Dry (o ∷ options) s (inr (inr later)) =
      Returns-bind (Returns-Any _) λ s' _. take_options-Dry options s' (inr later)

  pub settle-Dry :
      (s : Settings W) → Dry s → Returns (λ (a : Args W). a.dryrun ≡ true) Any (settle os lib m s)
  unfolding settle
  settle-Dry s h = Returns-bind (Returns-Any _) λ p _. Returns-bind (Returns-Any _) λ a _.
      Returns-bind (Returns-Any _)
        λ i _. Returns-bind (Returns-Any _) λ _ _. Returns-pure _ (merge_dryrun m s.limits ∙ h)

module _ {W : Type 0} ⦃d : Double W⦄ (os : Os) where
  pub startup_selftests-Dry :
      (args : Args W)
      → args.dryrun ≡ true
      → Returns (λ (a : Args W). a.dryrun ≡ true) Any (startup_selftests os args)
  unfolding startup_selftests test_kill
  startup_selftests-Dry args h =
      Returns-bind {Q = λ (a : Args W). a.dryrun ≡ true}
        (Returns-branch
          (λ _. Returns-bind (Returns-Any _) λ ret _.
            Returns-branch (λ _. Returns-bind (Returns-Any _) λ _ _. Returns-pure _ h)
              λ _. Returns-pure args h)
          λ _.
            Returns-bind (Returns-Any _)
              λ victim _. Returns-bind (Returns-Any _) λ _ _. Returns-pure args h)
        λ tested h'.
          Returns-bind (Returns-Any _) λ n _. Returns-bind (Returns-Any _) λ p _. Returns-pure _ h'
