-- ===== src/App/Screens/Calm.antt =====
-- What does not panic, through the calls that the screens of src/main.rs are made of.
pub mod Deactivate
pub mod Suffix
pub mod Screens
use amt_uefi_boot_app.Amt.Getters.{get_control_mode, unprovision}
use amt_uefi_boot_app.Ui.Screen.{Console}
use amt_uefi_boot_app.Outcome.{
  Action, ◌>>=◌, Error, Outcome, and_then, ok, err, panics, waits, ignore, ◌>>◌, dropped, pure,
  modify,
}
use amt_uefi_boot_app.Amt.Safety.{Fits, commands-Gives}
use amt_uefi_boot_app.Prelude.{
  Option, some, none, List, ℕ, ◌∷◌, [], codes, Bool, ◌==◌, if◌then◌else◌, ◌||◌, false, true,
}
use amt_uefi_boot_app.App.Machine.{
  Machine, App, mei_of, World, try_ctx, error_of, put_ctx, ok_of, result_of, heading, wait_key,
  press_any_key, end_screen, reconnect, paint, on_ctx, show, next_key,
}
use amt_uefi_boot_app.App.Screens.Deactivate.{
  do_deactivate, deactivate_mode, confirm, run_unprovision, mode_row, unprovision_rows,
}
use amt_uefi_boot_app.App.Screens.Info.{do_amt_info, canary, info_screen, suffix_rows}
use amt_uefi_boot_app.Outcome.Rules.{Calm, Calm-and_then, Gives}

-- What the screens rely on: the commands' two operations come back and count within the buffer,
-- and the two calls that start a connection do not panic.
pub record Sound (M : Machine) : Type 0 where
  pub fits : Fits (mei_of M)
  pub starts : (c : M.heci.Ctx) → Calm (λ _. Unit {0}) (M.heci.init c).0
  pub connects : (c : M.heci.Ctx) → Calm (λ _. Unit {0}) (M.connect_amthi c).0

abbrev pub IfSome : {A : Type 0} → (A → Type 0) → Option A → Type 0
IfSome Q none = Unit
IfSome Q (some a) = Q a

module _ (M : Machine) where
  pub IsCalm : {A : Type 0} → App M A → Type 0
  IsCalm {A} m = (w : World M) → Calm (λ (a : A). Unit {0}) (m w).0

  pub IsCalm-then :
      {A B : Type 0} (m : App M A) (k : A → App M B)
      → IsCalm m
      → ((a : A) → IsCalm (k a))
      → IsCalm (m >>= k)
  unfolding IsCalm
  IsCalm-then m k p f w =
      Calm-and_then (λ _. Unit {0}) (λ _. Unit {0}) k (m w) (p w) (λ a s u. f a s)

  -- A command whose result is looked at.
  pub try_then :
      {A B : Type 0} (Q : A → Type 0) (m : Action M.heci.Ctx A) (k : Option A → App M B)
      → ((c : M.heci.Ctx) → Gives Q (m c).0)
      → ((a : Option A) → IfSome Q a → IsCalm (k a))
      → IsCalm (try_ctx M m >>= k)
  unfolding IsCalm
  try_then {A} {B} Q m k p f w = go (m w.ctx) (p w.ctx)
    where
      go :
          (r : Outcome A × M.heci.Ctx)
          → Gives Q r.0
          → Calm (λ (b : B). Unit {0}) (and_then (put_ctx M w (ok_of r)) k).0
      go (ok a, c) q = f (some a) q _
      go (err e, c) q = f none tt _
      go (panics, c) q = q
      go (waits, c) q = tt

  -- A call whose error is shown or dropped.
  pub error_then :
      {A B : Type 0} (m : Action M.heci.Ctx A) (k : Option Error → App M B)
      → ((c : M.heci.Ctx) → Gives (λ _. Unit {0}) (m c).0)
      → ((e : Option Error) → IsCalm (k e))
      → IsCalm (error_of M m >>= k)
  unfolding IsCalm
  error_then {A} {B} m k p f w = go (m w.ctx) (p w.ctx)
    where
      go :
          (r : Outcome A × M.heci.Ctx)
          → Gives (λ _. Unit {0}) r.0
          → Calm (λ (b : B). Unit {0}) (and_then (put_ctx M w (result_of r)) k).0
      go (ok a, c) q = f none _
      go (err e, c) q = f (some e) _
      go (panics, c) q = q
      go (waits, c) q = tt

  pub show-IsCalm : (texts : List (ℕ → List (List ℕ))) → IsCalm (show M texts)
  unfolding IsCalm
  show-IsCalm texts w = tt

  pub show_then :
      {A : Type 0} (texts : List (ℕ → List (List ℕ))) (m : App M A)
      → IsCalm m
      → IsCalm (show M texts >> m)
  unfolding IsCalm
  show_then texts m p w = p _

  pub paint_then :
      {A : Type 0} (f : Console → Console) (m : App M A) → IsCalm m → IsCalm (paint M f >> m)
  unfolding IsCalm
  paint_then f m p w = p _

  pub modify_then :
      {A : Type 0} (f : World M → World M) (m : App M A) → IsCalm m → IsCalm (modify f >> m)
  unfolding IsCalm
  modify_then f m p w = p _

  pub heading_then :
      {A : Type 0} (lines : ℕ) (title : List ℕ) (m : App M A)
      → IsCalm m
      → IsCalm (heading M lines title >> m)
  unfolding IsCalm heading
  heading_then lines title m p w = p _

  pub wait_key-IsCalm : IsCalm (wait_key M)
  unfolding IsCalm wait_key
  wait_key-IsCalm w = go w.keys
    where
      go : (keys : List ℕ) → Calm (λ (key : ℕ). Unit {0}) (next_key M keys w).0
      go [] = tt
      go (key ∷ keys) = tt

  pub press_any_key-IsCalm : IsCalm (press_any_key M)
  unfolding IsCalm press_any_key
  press_any_key-IsCalm w = IsCalm-then (wait_key M) _ wait_key-IsCalm (λ key v. tt) _

  pub end_screen-IsCalm : IsCalm (end_screen M)
  unfolding end_screen
  end_screen-IsCalm = show_then _ _ press_any_key-IsCalm

  -- A connection that is started, whether or not it fails.
  ignore-Calm :
      (m : Action M.heci.Ctx (Unit {0}))
      → ((c : M.heci.Ctx) → Calm (λ _. Unit {0}) (m c).0)
      → IsCalm (ignore (on_ctx M m))
  unfolding IsCalm
  ignore-Calm m p w = go (m w.ctx) (p w.ctx)
    where
      go :
          (r : Outcome (Unit {0}) × M.heci.Ctx)
          → Calm (λ _. Unit {0}) r.0
          → Calm (λ (a : Unit {0}). Unit {0}) (dropped (put_ctx M w r)).0
      go (ok a, c) u = tt
      go (err e, c) u = tt
      go (panics, c) u = u
      go (waits, c) u = tt

  pub reconnect_then : Sound M → {A : Type 0} (m : App M A) → IsCalm m → IsCalm (reconnect M >> m)
  unfolding reconnect
  reconnect_then sound m p =
      IsCalm-then (reconnect M) (λ _. m)
        (IsCalm-then _ (λ _. ignore (on_ctx M M.connect_amthi))
          (ignore-Calm M.heci.init sound.starts) (λ a. ignore-Calm M.connect_amthi sound.connects))
        (λ a. p)

  pub if_IsCalm :
      {A : Type 0} (b : Bool) (m n : App M A) → IsCalm m → IsCalm n → IsCalm (if b then m else n)
  if_IsCalm true m n p q = p
  if_IsCalm false m n p q = q

  pub done-IsCalm : {A : Type 0} (a : A) → IsCalm (pure a)
  unfolding IsCalm
  done-IsCalm a w = tt
