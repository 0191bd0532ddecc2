-- ===== src/App/Screens/Menu.antt =====
-- `app_main` and `uefi_main` of src/main.rs.
use amt_uefi_boot_app.Amt.Getters.{get_control_mode, control_mode_str}
use amt_uefi_boot_app.Outcome.{◌>>◌, modify, waits, Error, ◌>>=◌, pure}
use amt_uefi_boot_app.Ui.Box.{
  top_prints, line_prints, rows, blank_prints, center_prints, sep_prints, kv_prints, bottom_prints,
}
use amt_uefi_boot_app.Prelude.{
  ℕ, Option, List, codes, if◌then◌else◌, some, ◌∷◌, ◌==◌, suc, ◌||◌, [], none, zero,
}
use amt_uefi_boot_app.App.Machine.{
  Machine, World, App, mei_of, try_ctx, show, wait_key, paint, press_any_key, error_of,
}
use amt_uefi_boot_app.App.Screens.Info.{do_amt_info}
use amt_uefi_boot_app.App.Screens.Deactivate.{do_deactivate}
use amt_uefi_boot_app.App.Screens.Suffix.{do_set_dns_suffix}
use amt_uefi_boot_app.App.Screens.Activate.{do_activate_ccm}
use amt_uefi_boot_app.Ui.Screen.{clear, v_center}

abbrev pub menu_mode : Option ℕ → List ℕ
menu_mode none = codes "Unknown"
menu_mode (some mode) = control_mode_str mode

-- What `uefi_main` returns.
pub data Status : Type 0 where
  success device_error : Status

module _ (M : Machine) (fuel chunks : ℕ) (soap : List ℕ) where
  unfoldable pub menu_screen : Option ℕ → App M (Unit {0})
  menu_screen mode = show M (
      top_prints
      ∷ blank_prints
      ∷ center_prints (codes "AMT Configuration Tool")
      ∷ blank_prints
      ∷ sep_prints
      ∷ blank_prints
      ∷ kv_prints (codes "Current Status") (menu_mode mode)
      ∷ blank_prints
      ∷ sep_prints
      ∷ blank_prints
      ∷ line_prints (codes "  A)  AMT Info")
      ∷ line_prints (codes "  B)  Deactivate (CCM Unprovision)")
      ∷ line_prints (codes "  C)  Activate (CCM)")
      ∷ line_prints (codes "  D)  Set PKI DNS Suffix")
      ∷ line_prints (codes "  Q)  Quit")
      ∷ blank_prints
      ∷ sep_prints
      ∷ line_prints (codes "Select: ")
      ∷ bottom_prints
      ∷ [])

  -- The menu, up to the key that is pressed.
  unfoldable pub choose : App M ℕ
  choose =
      paint M (λ c. v_center 19 (clear c))
      >> (try_ctx M (get_control_mode (mei_of M)) >>= λ mode. menu_screen mode >> wait_key M)

  -- The arms for the screens; any other key does nothing.
  unfoldable pub run_choice : ℕ → App M (Unit {0})
  run_choice ch =
      if ch == b'a' || ch == b'A'
      then do_amt_info M
      else if ch == b'b' || ch == b'B'
      then do_deactivate M
      else if ch == b'c' || ch == b'C'
      then do_activate_ccm M fuel chunks soap
      else if ch == b'd' || ch == b'D'
      then do_set_dns_suffix M
      else pure tt

  abbrev pub quit : App M (Unit {0})
  quit = modify (λ (w : World M). record w { ctx = M.heci.close w.ctx })

  -- The loop of `app_main`, for at most `rounds` rounds.
  unfoldable pub app_main : ℕ → App M (Unit {0})
  app_main zero = λ w. (waits, w)
  app_main (suc rounds) =
      let again = app_main rounds in
      choose >>= λ ch. if ch == b'q' || ch == b'Q' then quit else run_choice ch >> again

  abbrev pub failed_start : List ℕ → App M Status
  failed_start text = show M (line_prints text ∷ []) >> (press_any_key M >> pure device_error)

  abbrev pub connected : ℕ → Option Error → App M Status
  connected rounds (some e) = failed_start (codes "FAILED: Could not connect to AMTHI.")
  connected rounds none = app_main rounds >> pure success

  abbrev pub initialized : ℕ → Option Error → App M Status
  initialized rounds (some e) = failed_start (codes "FAILED: Could not initialize HECI.")
  initialized rounds none = error_of M M.connect_amthi >>= connected rounds

  -- From the world that `ui::init` leaves. `HeciContext::new` is `init` on a fresh context.
  unfoldable pub uefi_main : ℕ → App M Status
  uefi_main rounds =
      paint M (λ c.
        rows
          (top_prints
            ∷ blank_prints
            ∷ center_prints (codes "AMT Configuration Tool")
            ∷ blank_prints
            ∷ sep_prints
            ∷ blank_prints
            ∷ line_prints (codes "Initializing HECI...")
            ∷ bottom_prints
            ∷ [])
          (v_center 8 c))
      >> (error_of M (λ c. M.heci.init (M.heci.fresh c)) >>= initialized rounds)
