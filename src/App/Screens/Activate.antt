-- ===== src/App/Screens/Activate.antt =====
-- `do_activate_ccm` of src/main.rs.
use amt_uefi_boot_app.StrUtil.{ascii_len}
use amt_uefi_boot_app.App.Utf8.{text_or}
use amt_uefi_boot_app.Outcome.{◌>>◌, Outcome, ok, ◌>>=◌, err, modify, panics, waits}
use amt_uefi_boot_app.Ui.Box.{line_prints, kv_prints, show_working, bottom_prints}
use amt_uefi_boot_app.Prelude.{
  ℕ, List, codes, Option, ◌∷◌, if◌then◌else◌, [], take, some, ◌==◌, none,
}
use amt_uefi_boot_app.App.Machine.{
  Machine, World, App, mei_of, try_ctx, show, heading, end_screen, reconnect, paint,
}
use amt_uefi_boot_app.Amt.Getters.{
  get_control_mode, control_mode_str, get_local_system_account, LsaCredentials,
}
use amt_uefi_boot_app.App.Screens.Deactivate.{error_text, mode_row}
use amt_uefi_boot_app.Lme.Session.{Session}
use amt_uefi_boot_app.Lme.Channel.{init, channel_open, close}
use amt_uefi_boot_app.Wsman.Activate.{activate_ccm, WsmanCcmResult}

abbrev pub default_amt_password : List ℕ
default_amt_password = codes "P@ssw0rd"

-- `fuel` bounds what the session hears, `chunks` the chunks of an answer. `soap` is what `SOAP_BUF`
-- holds at the start.
module _ (M : Machine) (fuel chunks : ℕ) (soap : List ℕ) where
  abbrev Lme : Type 0
  Lme = Session M.heci

  -- `lme.close()`, and the program's own context over the hardware that the session leaves.
  unfoldable pub leave : Lme → App M (Unit {0})
  leave t w = let (o, s) = close M.heci t in (o, record w { ctx = M.resume w.ctx s.heci })

  abbrev pub failed_rows : List (ℕ → List (List ℕ)) → App M (Unit {0})
  failed_rows texts = heading M 9 (codes "Activate CCM") >> (show M texts >> end_screen M)

  abbrev pub not_open_rows : Lme → List (ℕ → List (List ℕ))
  not_open_rows t =
      line_prints (codes "Failed to open APF channel.")
      ∷ (if t.port_forward_ok
          then []
          else line_prints (codes "(ME did not establish port forwarding)") ∷ [])

  -- What `result` shows, once the session is closed and the connection made anew.
  abbrev pub conclude : Lme → App M (Unit {0}) → App M (Unit {0})
  conclude t result =
      leave t
      >> (reconnect M >> (heading M 11 (codes "CCM Activation Result") >> (result >> end_screen M)))

  abbrev pub success_rows : WsmanCcmResult → App M (Unit {0})
  success_rows r =
      show M (
        kv_prints (codes "Status") (codes "SUCCESS")
        ∷ kv_prints (codes "DigestRealm")
            (text_or (take (ascii_len r.digest_realm) r.digest_realm) (codes "?"))
        ∷ [])
      >> (try_ctx M (get_control_mode (mei_of M)) >>= mode_row M (codes "Verified Mode"))

  abbrev pub concluded : Outcome WsmanCcmResult → Lme → App M (Unit {0})
  concluded (ok r) t = conclude t (success_rows r)
  concluded (err e) t = conclude t (show M (kv_prints (codes "Status") (error_text e) ∷ []))
  concluded panics t = λ w. (panics, w)
  concluded waits t = λ w. (waits, w)

  unfoldable pub activate : LsaCredentials → Lme → App M (Unit {0})
  activate lsa t w =
      let (o, link) =
        activate_ccm M.heci fuel chunks lsa default_amt_password soap
          (record { session = t; request = w.request; auth = w.auth; response = w.response }) in
      concluded o link.session
        (record w { request = link.request; auth = link.auth; response = link.response })

  abbrev pub opened : LsaCredentials → Outcome (Unit {0}) × Lme → App M (Unit {0})
  opened lsa (ok u, t) = activate lsa t
  opened lsa (err e, t) = leave t >> (reconnect M >> failed_rows (not_open_rows t))
  opened lsa (panics, t) = λ w. (panics, w)
  opened lsa (waits, t) = λ w. (waits, w)

  -- After `LmeSession::init`. Where it fails, the hardware is as it left it.
  abbrev pub joined : LsaCredentials → Outcome (Unit {0}) × Lme → App M (Unit {0})
  joined lsa (ok u, t) = opened lsa (channel_open M.heci fuel t)
  joined lsa (err e, t) =
      modify (λ (w : World M). record w { ctx = M.resume w.ctx t.heci })
      >> (reconnect M >> failed_rows (line_prints (codes "Failed to open LME tunnel.") ∷ []))
  joined lsa (panics, t) = λ w. (panics, w)
  joined lsa (waits, t) = λ w. (waits, w)

  unfoldable pub open_session : LsaCredentials → App M (Unit {0})
  open_session lsa w = joined lsa (init M.heci fuel w.ctx) (record w { ctx = M.heci.close w.ctx })

  unfoldable pub with_account : Option LsaCredentials → App M (Unit {0})
  with_account none = failed_rows (line_prints (codes "Failed to get Local System Account.") ∷ [])
  with_account (some lsa) = paint M (show_working (codes "Activating CCM...")) >> open_session lsa

  unfoldable pub activate_mode : Option ℕ → App M (Unit {0})
  activate_mode none =
      show M (line_prints (codes "Error reading control mode.") ∷ []) >> end_screen M
  activate_mode (some mode) =
      if mode == 0
      then show M (line_prints (codes "Getting Local System Account...") ∷ bottom_prints ∷ [])
        >> (try_ctx M (get_local_system_account (mei_of M)) >>= with_account)
      else show M (
          line_prints (codes "Device is already activated.")
          ∷ kv_prints (codes "Current Mode") (control_mode_str mode)
          ∷ line_prints (codes "Deactivate first before re-activating.")
          ∷ [])
        >> end_screen M

  unfoldable pub do_activate_ccm : App M (Unit {0})
  do_activate_ccm =
      heading M 10 (codes "Activate CCM")
      >> (try_ctx M (get_control_mode (mei_of M)) >>= activate_mode)
