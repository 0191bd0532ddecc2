-- ===== src/App/Screens/Asks.antt =====
-- When do_deactivate and do_activate_ccm of src/main.rs go beyond reading the control mode.
use amt_uefi_boot_app.Outcome.Rules.{and_then_keeps, OkIs-any}
use amt_uefi_boot_app.Amt.Getters.{get_control_mode}
use amt_uefi_boot_app.Outcome.{Outcome, ok, and_then, err, pure, panics, waits}
use amt_uefi_boot_app.App.Machine.{
  Machine, World, end_screen, wait_key, next_key, press_any_key, mei_of, put_ctx, ok_of, heading,
}
use amt_uefi_boot_app.Prelude.{
  List, ℕ, ◌∷◌, ◌≡◌, ◌⊎◌, ◌≢◌, [], if◌then◌else◌, ◌==◌, ◌||◌, Bool-cases, inr, inl, arith, ap, refl,
  codes,
}
use amt_uefi_boot_app.App.Screens.Deactivate.{
  do_deactivate, deactivate_mode, confirm, run_unprovision,
}
use amt_uefi_boot_app.App.Screens.Activate.{do_activate_ccm, activate_mode}

-- The first key is y or Y.
abbrev pub SaysYes : List ℕ → Type 0
SaysYes [] = ⊥
SaysYes (key ∷ keys) = (key ≡ b'y') ⊎ (key ≡ b'Y')

module _ (M : Machine) where
  abbrev pub mode_read : World M → Outcome ℕ × M.heci.Ctx
  mode_read w = get_control_mode (mei_of M) w.ctx

  -- The device is in a mode that may be left, and the user agrees.
  abbrev pub MayDeactivate : Outcome ℕ → List ℕ → Type 0
  MayDeactivate (ok mode) keys = (mode ≢ 0) × (mode ≢ 2) × SaysYes keys
  MayDeactivate (err e) keys = ⊥
  MayDeactivate panics keys = ⊥
  MayDeactivate waits keys = ⊥

  module _ (d : M.heci.Ctx) where
    Left : World M → Type 0
    Left w = w.ctx ≡ d

    next_key-Left : (keys : List ℕ) (w : World M) → Left w → Left (next_key M keys w).1
    unfolding Left
    next_key-Left [] w p = p
    next_key-Left (key ∷ keys) w p = p

    -- The end of a screen leaves the context alone.
    end_screen-Left : (w : World M) → Left w → Left (end_screen M w).1
    unfolding end_screen press_any_key wait_key Left
    end_screen-Left w p =
        and_then_keeps Left (λ _. Unit {0}) (λ key. pure tt) _ (next_key-Left w.keys _ p)
          (OkIs-any _) (λ key v q u. q)

    confirmed :
        (keys : List ℕ) (w : World M)
        → Left w
        → SaysYes keys
          ⊎ Left
              (and_then
                (next_key M keys w)
                (λ ch. if ch == b'y' || ch == b'Y' then run_unprovision M else pure tt)).1
    unfolding Left
    confirmed [] w p = inr p
    confirmed (key ∷ keys) w p = elim (Bool-cases (key == b'y' || key == b'Y')) [
      | inl e ↦ inl (ground (arith, e))
      | inr e ↦ rw e (inr p)
    ]

    deactivated :
        (r : Outcome ℕ) (w : World M)
        → MayDeactivate r w.keys
          ⊎ Left (and_then (put_ctx M w (ok_of (r, d))) (deactivate_mode M)).1
    unfolding deactivate_mode confirm wait_key Left
    deactivated (ok mode) w = elim (Bool-cases (mode == 0)) [
      | inl e ↦ rw e (inr (end_screen-Left _ refl))
      | inr e ↦ elim (Bool-cases (mode == 2)) [
        | inl f ↦ rw (e, f) (inr (end_screen-Left _ refl))
        | inr f ↦
            rw (e, f)
              elim (confirmed w.keys _ refl) [
                | inl says ↦ inl (ground (arith, e), ground (arith, f), says)
                | inr left ↦ inr left
              ]
      ]
    ]
    deactivated (err e) w = inr (end_screen-Left _ refl)
    deactivated panics w = inr refl
    deactivated waits w = inr refl

    activated :
        (fuel chunks : ℕ) (soap : List ℕ) (r : Outcome ℕ) (w : World M)
        → (r ≡ ok 0)
          ⊎ Left (and_then (put_ctx M w (ok_of (r, d))) (activate_mode M fuel chunks soap)).1
    unfolding activate_mode Left
    activated fuel chunks soap (ok mode) w = elim (Bool-cases (mode == 0)) [
      | inl e ↦ inl (ap ok (ground (arith, e)))
      | inr e ↦ rw e (inr (end_screen-Left _ refl))
    ]
    activated fuel chunks soap (err e) w = inr (end_screen-Left _ refl)
    activated fuel chunks soap panics w = inr refl
    activated fuel chunks soap waits w = inr refl

  -- do_deactivate leaves the context as the reading of the control mode has left it, unless the mode
  -- is neither 0 nor 2 and the next key is y or Y; and so does do_activate_ccm, unless the mode is
  -- 0.
  pub do_deactivate-MayDeactivate :
      (fuel chunks : ℕ) (soap : List ℕ) (w : World M)
      → let (r, d) = get_control_mode (mei_of M) w.ctx in
        (MayDeactivate r w.keys ⊎ ((do_deactivate M w).1.ctx ≡ d))
        × ((r ≡ ok 0) ⊎ ((do_activate_ccm M fuel chunks soap w).1.ctx ≡ d))
  unfolding do_deactivate do_activate_ccm heading Left
  do_deactivate-MayDeactivate fuel chunks soap w =
      let (r, d) = get_control_mode (mei_of M) w.ctx in
      (
        deactivated d r (heading M 10 (codes "Deactivate AMT") w).1,
        activated d fuel chunks soap r (heading M 10 (codes "Activate CCM") w).1,
      )
