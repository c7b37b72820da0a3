-- ===== src/Startup/Paths.antt =====
-- The paths of the programs that the self-tests leave.
use mathlib.Core.Path.{subst}
use earlyoom.Prelude.{◌≡◌, ◌≢◌, refl, Option, none, some, [], ◌∷◌, ◌⊎◌, inl, inr, arith}
use earlyoom.Prelude.Text.{Bytes}
use earlyoom.Double.{Double}
use earlyoom.Args.{Args}
use earlyoom.Machine.{Os}
use earlyoom.Machine.Returns.{Returns, Any, Returns-Any, Returns-pure, Returns-branch, Returns-bind}
use earlyoom.Startup.{is_absolute, check_path, test_kill, startup_selftests}

-- What becomes of the path of a program: it stays if it begins with a slash.
abbrev pub IsChecked : Option Bytes → Option Bytes → Type 0
IsChecked none new = new ≡ none
IsChecked (some []) new = new ≡ none
IsChecked (some (c ∷ s)) new = ((c ≡ 47) × (new ≡ some (c ∷ s))) ⊎ ((c ≢ 47) × (new ≡ none))

module _ (os : Os) where
  check_path-IsChecked : (path : Option Bytes) → Returns (IsChecked path) Any (check_path os path)
  unfolding check_path is_absolute
  check_path-IsChecked none = Returns-pure none refl
  check_path-IsChecked (some []) =
      Returns-branch (λ _. Returns-bind (Returns-Any _) λ _ _. Returns-pure none refl)
        λ e. absurd (ground arith)
  check_path-IsChecked (some (c ∷ s)) =
      Returns-branch
        (λ e. Returns-bind (Returns-Any _) λ _ _. Returns-pure none (inr (ground arith, refl)))
        λ e. Returns-bind (Returns-Any _) λ r _.
          Returns-bind (Returns-Any _) λ _ _. Returns-pure (some (c ∷ s)) (inl (ground arith, refl))

module _ {W : Type 0} ⦃d : Double W⦄ (os : Os) where
  -- The same programs are named.
  record KeepsPaths (args tested : Args W) : Type 0 where
    notify_ext : tested.notify_ext ≡ args.notify_ext
    prehook : tested.kill_process_prehook ≡ args.kill_process_prehook

  test_kill-KeepsPaths : (args : Args W) → Returns (KeepsPaths args) Any (test_kill os args)
  unfolding test_kill
  test_kill-KeepsPaths args =
      Returns-branch
        (λ _. Returns-bind (Returns-Any _) λ ret _.
          Returns-branch
            (λ _.
              Returns-bind (Returns-Any _)
                λ _ _. Returns-pure _ (record { notify_ext = refl; prehook = refl }))
            λ _. Returns-pure args (record { notify_ext = refl; prehook = refl }))
        λ _. Returns-bind (Returns-Any _) λ victim _.
          Returns-bind (Returns-Any _)
            λ _ _. Returns-pure args (record { notify_ext = refl; prehook = refl })

  -- Behind the self-tests the programs of -N and -P are those that were given, where their paths
  -- begin with a slash, and are disabled otherwise.
  pub startup_selftests-IsChecked :
      (args : Args W)
      → Returns
          (λ (a : Args W).
            IsChecked args.notify_ext a.notify_ext
            × IsChecked args.kill_process_prehook a.kill_process_prehook)
          Any
          (startup_selftests os args)
  unfolding startup_selftests
  startup_selftests-IsChecked args = Returns-bind (test_kill-KeepsPaths args) λ tested k.
      Returns-bind (check_path-IsChecked os tested.notify_ext) λ n hn.
        Returns-bind (check_path-IsChecked os tested.kill_process_prehook) λ p hp.
          Returns-pure _
            (subst (λ o. IsChecked o n) k.notify_ext hn, subst (λ o. IsChecked o p) k.prehook hp)
