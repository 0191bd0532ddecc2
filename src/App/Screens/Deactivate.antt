-- ===== src/App/Screens/Deactivate.antt =====
-- `do_deactivate` of src/main.rs.
use amt_uefi_boot_app.Ui.Box.{show_working, kv_prints, line_prints, blank_prints, bottom_prints}
use amt_uefi_boot_app.Outcome.{Error, pure, ◌>>◌, ◌>>=◌}
use amt_uefi_boot_app.Prelude.{
  ℕ, List, Option, codes, replicate, take, some, ◌∷◌, [], if◌then◌else◌, none, ◌==◌, ◌||◌,
}
use amt_uefi_boot_app.App.Machine.{
  Machine, App, mei_of, try_ctx, error_of, show, heading, wait_key, end_screen, reconnect, paint,
}
use amt_uefi_boot_app.Amt.Getters.{get_control_mode, control_mode_str, unprovision}
use amt_uefi_boot_app.App.Utf8.{text_or}
use amt_uefi_boot_app.App.Format.{format_error}

-- `format_error` into `msg`, and its text.
unfoldable pub error_text : Error → List ℕ
error_text e =
    let (msg, n) = format_error (replicate 40 0) e in text_or (take n msg) (codes "FAILED")

module _ (M : Machine) where
  -- A row with a control mode, if it can be read.
  abbrev pub mode_row : List ℕ → Option ℕ → App M (Unit {0})
  mode_row label none = pure tt
  mode_row label (some mode) = show M (kv_prints label (control_mode_str mode) ∷ [])

  abbrev pub unprovision_rows : Option Error → App M (Unit {0})
  unprovision_rows none =
      show M (kv_prints (codes "Status") (codes "SUCCESS") ∷ [])
      >> (try_ctx M (get_control_mode (mei_of M)) >>= mode_row (codes "New Mode"))
  unprovision_rows (some e) = show M (kv_prints (codes "Status") (error_text e) ∷ [])

  unfoldable pub run_unprovision : App M (Unit {0})
  run_unprovision =
      paint M (show_working (codes "Deactivating..."))
      >> (error_of M (unprovision (mei_of M)) >>= λ result.
          reconnect M
          >> (heading M 10 (codes "Deactivation Result")
              >> (unprovision_rows result >> end_screen M)))

  unfoldable pub confirm : ℕ → App M (Unit {0})
  confirm mode =
      show M (
        kv_prints (codes "Current Mode") (control_mode_str mode)
        ∷ blank_prints
        ∷ line_prints (codes "Are you sure you want to deactivate? (y/n)")
        ∷ blank_prints
        ∷ bottom_prints
        ∷ [])
      >> (wait_key M >>= λ ch. if ch == b'y' || ch == b'Y' then run_unprovision else pure tt)

  unfoldable pub deactivate_mode : Option ℕ → App M (Unit {0})
  deactivate_mode none =
      show M (line_prints (codes "Error reading control mode.") ∷ []) >> end_screen M
  deactivate_mode (some mode) =
      if mode == 0
      then show M (
          line_prints (codes "Device is already in Pre-Provisioning state.")
          ∷ line_prints (codes "Nothing to deactivate.")
          ∷ [])
        >> end_screen M
      else if mode == 2
      then show M (
          line_prints (codes "Device is in Admin Control Mode (ACM).")
          ∷ line_prints (codes "Cannot deactivate ACM from here.")
          ∷ [])
        >> end_screen M
      else confirm mode

  unfoldable pub do_deactivate : App M (Unit {0})
  do_deactivate =
      heading M 10 (codes "Deactivate AMT")
      >> (try_ctx M (get_control_mode (mei_of M)) >>= deactivate_mode)
