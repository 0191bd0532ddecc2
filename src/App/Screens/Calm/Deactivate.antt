-- ===== src/App/Screens/Calm/Deactivate.antt =====
-- do_deactivate of src/main.rs does not panic.
use amt_uefi_boot_app.Amt.Safety.{commands-Gives}
use amt_uefi_boot_app.Amt.Getters.{unprovision, get_control_mode}
use amt_uefi_boot_app.Outcome.{Error, ◌>>=◌}
use amt_uefi_boot_app.Prelude.{Option, List, ℕ, some, codes, none, ◌==◌, [], ◌||◌, false}
use amt_uefi_boot_app.App.Machine.{Machine, App, try_ctx, mei_of, wait_key}
use amt_uefi_boot_app.App.Screens.Deactivate.{
  do_deactivate, deactivate_mode, confirm, run_unprovision, mode_row, unprovision_rows,
}
use amt_uefi_boot_app.App.Screens.Calm.{
  IsCalm, Sound, paint_then, heading_then, error_then, show_then, IsCalm-then, end_screen-IsCalm,
  show-IsCalm, if_IsCalm, wait_key-IsCalm, try_then, done-IsCalm, reconnect_then,
}

module _ {M : Machine} (sound : Sound M) where
  pub mode_then :
      {A : Type 0} (k : Option ℕ → App M A)
      → ((mode : Option ℕ) → IsCalm M (k mode))
      → IsCalm M (try_ctx M (get_control_mode (mei_of M)) >>= k)
  mode_then k f =
      try_then M (λ _. Unit {0}) _ k (λ c. (commands-Gives sound.fits [] false c).0)
        (λ mode u. f mode)

  mode_row-IsCalm : (label : List ℕ) (mode : Option ℕ) → IsCalm M (mode_row M label mode)
  unfolding IsCalm
  mode_row-IsCalm label none w = tt
  mode_row-IsCalm label (some mode) w = tt

  unprovision_rows-IsCalm : (result : Option Error) → IsCalm M (unprovision_rows M result)
  unprovision_rows-IsCalm none = show_then M _ _ (mode_then _ (mode_row-IsCalm (codes "New Mode")))
  unprovision_rows-IsCalm (some e) = show-IsCalm M _

  run_unprovision-IsCalm : IsCalm M (run_unprovision M)
  unfolding run_unprovision
  run_unprovision-IsCalm = paint_then M _ _ (
      error_then M (unprovision (mei_of M)) _ (λ c. (commands-Gives sound.fits [] false c).8)
        λ result. reconnect_then M sound _ (
          heading_then M _ _ _ (
            IsCalm-then M (unprovision_rows M result) _ (unprovision_rows-IsCalm result)
              (λ a. (end_screen-IsCalm M)))))

  confirm-IsCalm : (mode : ℕ) → IsCalm M (confirm M mode)
  unfolding confirm
  confirm-IsCalm mode = show_then M _ _ (
      IsCalm-then M (wait_key M) _ (wait_key-IsCalm M) (λ ch.
        if_IsCalm M (ch == b'y' || ch == b'Y') _ _ run_unprovision-IsCalm (done-IsCalm M tt)))

  deactivate_mode-IsCalm : (mode : Option ℕ) → IsCalm M (deactivate_mode M mode)
  unfolding deactivate_mode
  deactivate_mode-IsCalm none = show_then M _ _ (end_screen-IsCalm M)
  deactivate_mode-IsCalm (some mode) =
      if_IsCalm M (mode == 0) _ _ (show_then M _ _ (end_screen-IsCalm M))
        (if_IsCalm M (mode == 2) _ _ (show_then M _ _ (end_screen-IsCalm M)) (confirm-IsCalm mode))

  pub do_deactivate-IsCalm : IsCalm M (do_deactivate M)
  unfolding do_deactivate
  do_deactivate-IsCalm = heading_then M _ _ _ (mode_then _ deactivate_mode-IsCalm)
