-- ===== src/App/Screens/Keys.antt =====
-- No screen of src/main.rs gives keys back.
pub mod Screens
pub mod Activate
pub mod Rounds
use Prim.Native.Nat.{max}
use amt_uefi_boot_app.Outcome.Rules.{and_then_keeps, OkIs-any}
use amt_uefi_boot_app.Ui.Screen.{Console}
use amt_uefi_boot_app.Outcome.{
  Action, modify, pure, ◌>>=◌, ignore, in_bounds, ◌>>◌, Outcome, dropped, ok, err, panics, waits,
}
use amt_uefi_boot_app.Prelude.{
  ℕ, List, Bool, arith, if◌then◌else◌, Option, length, true, ◌≤◌, false, ◌∷◌, [],
}
use amt_uefi_boot_app.App.Machine.{
  Machine, App, heading, wait_key, reconnect, end_screen, World, try_ctx, error_of, show, paint,
  press_any_key, on_ctx, next_key, put_ctx,
}

module _ (M : Machine) where
  -- No key comes anew.
  unfoldable pub Uses : {A : Type 0} → App M A → Type 0
  Uses m = (w : World M) → length (m w).1.keys ≤ length w.keys

  pub Uses-then :
      {A B : Type 0} (m : App M A) (k : A → App M B)
      → Uses m
      → ((a : A) → Uses (k a))
      → Uses (m >>= k)
  unfolding Uses
  Uses-then m k p f w =
      and_then_keeps (λ v. length v.keys ≤ length w.keys) (λ _. Unit {0}) k (m w) (p w) (OkIs-any _)
        (λ a s q u. omega (arith, f a s, q))

  pub try-Uses : {A : Type 0} (m : Action M.heci.Ctx A) → Uses (try_ctx M m)
  unfolding Uses
  try-Uses m w = omega arith

  pub error-Uses : {A : Type 0} (m : Action M.heci.Ctx A) → Uses (error_of M m)
  unfolding Uses
  error-Uses m w = omega arith

  pub show-Uses : (texts : List (ℕ → List (List ℕ))) → Uses (show M texts)
  unfolding Uses
  show-Uses texts w = omega arith

  pub paint-Uses : (f : Console → Console) → Uses (paint M f)
  unfolding Uses
  paint-Uses f w = omega arith

  pub modify-Uses :
      (f : M.heci.Ctx → M.heci.Ctx) → Uses (modify (λ (w : World M). record w { ctx = f w.ctx }))
  unfolding Uses
  modify-Uses f w = omega arith

  pub heading-Uses : (lines : ℕ) (title : List ℕ) → Uses (heading M lines title)
  unfolding Uses heading
  heading-Uses lines title w = omega arith

  pub done-Uses : {A : Type 0} (a : A) → Uses (pure a)
  unfolding Uses
  done-Uses a w = omega arith

  pub next_key_uses :
      (keys : List ℕ) (w : World M)
      → length (next_key M keys w).1.keys ≤ max (length w.keys) (length keys)
  next_key_uses [] w = omega arith
  next_key_uses (key ∷ keys) w = omega arith

  pub wait_key-Uses : Uses (wait_key M)
  unfolding Uses wait_key
  wait_key-Uses w = omega (arith, next_key_uses w.keys w)

  pub ignore-Uses : (m : Action M.heci.Ctx (Unit {0})) → Uses (ignore (on_ctx M m))
  unfolding Uses
  ignore-Uses m w = go (m w.ctx)
    where
      go :
          (r : Outcome (Unit {0}) × M.heci.Ctx)
          → length (dropped (put_ctx M w r)).1.keys ≤ length w.keys
      go (ok a, c) = omega arith
      go (err e, c) = omega arith
      go (panics, c) = omega arith
      go (waits, c) = omega arith

  pub if_Uses :
      {A : Type 0} (b : Bool) (m n : App M A) → Uses m → Uses n → Uses (if b then m else n)
  if_Uses true m n p q = p
  if_Uses false m n p q = q

  pub bounds-Uses : (b : Bool) → Uses (in_bounds b)
  unfolding Uses
  bounds-Uses true w = omega arith
  bounds-Uses false w = omega arith

  -- The common steps, one after the other.
  pub show_first :
      {A : Type 0} (texts : List (ℕ → List (List ℕ))) (m : App M A)
      → Uses m
      → Uses (show M texts >> m)
  show_first texts m p = Uses-then _ _ (show-Uses texts) (λ a. p)

  pub paint_first :
      {A : Type 0} (f : Console → Console) (m : App M A) → Uses m → Uses (paint M f >> m)
  paint_first f m p = Uses-then _ _ (paint-Uses f) (λ a. p)

  pub heading_first :
      {A : Type 0} (lines : ℕ) (title : List ℕ) (m : App M A)
      → Uses m
      → Uses (heading M lines title >> m)
  heading_first lines title m p = Uses-then _ _ (heading-Uses lines title) (λ a. p)

  pub try_first :
      {A B : Type 0} (m : Action M.heci.Ctx A) (k : Option A → App M B)
      → ((a : Option A) → Uses (k a))
      → Uses (try_ctx M m >>= k)
  try_first m k f = Uses-then _ k (try-Uses m) f

  pub reconnect-Uses : Uses (reconnect M)
  unfolding reconnect
  reconnect-Uses = Uses-then _ _ (ignore-Uses M.heci.init) (λ a. ignore-Uses M.connect_amthi)

  pub press_any_key-Uses : Uses (press_any_key M)
  unfolding press_any_key
  press_any_key-Uses = show_first _ _ (Uses-then _ _ wait_key-Uses (λ key. done-Uses tt))

  pub end_screen-Uses : Uses (end_screen M)
  unfolding end_screen
  end_screen-Uses = show_first _ _ press_any_key-Uses
