-- ===== src/App/Screens/Keys/Rounds.antt =====
-- The menu of src/main.rs ends with the keys: each round takes one.
use amt_uefi_boot_app.Prelude.{ℕ, List, length, ◌<◌}
use amt_uefi_boot_app.App.Machine.{Machine, World, App}
use amt_uefi_boot_app.Outcome.{Outcome, ok, err, panics, waits}

module _ (M : Machine) (fuel chunks : ℕ) (soap : List ℕ) where
  -- A choice that has taken one of `n` keys.
  Took : ℕ → Outcome ℕ × World M → Type 0
  Took n (ok ch, v) = length v.keys < n
  Took n (err e, v) = Unit
  Took n (panics, v) = Unit
  Took n (waits, v) = Unit
