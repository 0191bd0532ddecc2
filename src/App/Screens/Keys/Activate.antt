-- ===== src/App/Screens/Keys/Activate.antt =====
-- do_activate_ccm of src/main.rs gives no keys back.
use amt_uefi_boot_app.Ui.Box.{line_prints}
use amt_uefi_boot_app.App.Screens.Keys.Screens.{mode_row-Uses}
use amt_uefi_boot_app.Wsman.Activate.{WsmanCcmResult}
use amt_uefi_boot_app.Amt.Getters.{LsaCredentials, get_control_mode, get_local_system_account}
use amt_uefi_boot_app.Lme.Session.{Session}
use amt_uefi_boot_app.Outcome.{Outcome, ok, err, panics, waits}
use amt_uefi_boot_app.Prelude.{ℕ, List, Option, arith, some, none, ◌==◌, codes, ◌∷◌, []}
use amt_uefi_boot_app.App.Machine.{Machine, App, mei_of}
use amt_uefi_boot_app.App.Screens.Activate.{
  do_activate_ccm, activate_mode, with_account, open_session, joined, opened, activate, concluded,
  conclude, failed_rows, leave,
}
use amt_uefi_boot_app.App.Screens.Keys.{
  Uses, heading_first, show_first, try_first, end_screen-Uses, Uses-then, paint_first,
  reconnect-Uses, modify-Uses, if_Uses, show-Uses,
}

module _ (M : Machine) (fuel chunks : ℕ) (soap : List ℕ) where
  leave-Uses : (t : Session M.heci) → Uses M (leave M fuel chunks soap t)
  unfolding Uses leave
  leave-Uses t w = omega arith

  failed_rows-Uses :
      (texts : List (ℕ → List (List ℕ))) → Uses M (failed_rows M fuel chunks soap texts)
  failed_rows-Uses texts = heading_first M _ _ _ (show_first M _ _ (end_screen-Uses M))

  conclude-Uses :
      (t : Session M.heci) (result : App M (Unit {0}))
      → Uses M result
      → Uses M (conclude M fuel chunks soap t result)
  conclude-Uses t result p = Uses-then M _ _ (leave-Uses t) λ a.
      Uses-then M _ _ (reconnect-Uses M)
        λ b. heading_first M _ _ _ (Uses-then M _ _ p (λ c. end_screen-Uses M))

  ended-Uses : {A : Type 0} (o : Outcome A) → Uses M (λ w. (o, w))
  unfolding Uses
  ended-Uses o w = omega arith

  concluded-Uses :
      (o : Outcome WsmanCcmResult) (t : Session M.heci) → Uses M (concluded M fuel chunks soap o t)
  concluded-Uses (ok r) t = conclude-Uses t _ (
      show_first M _ _
        (try_first M (get_control_mode (mei_of M)) _ (mode_row-Uses M (codes "Verified Mode"))))
  concluded-Uses (err e) t = conclude-Uses t _ (show-Uses M _)
  concluded-Uses panics t = ended-Uses panics
  concluded-Uses waits t = ended-Uses waits

  activate-Uses :
      (lsa : LsaCredentials) (t : Session M.heci) → Uses M (activate M fuel chunks soap lsa t)
  unfolding Uses activate
  activate-Uses lsa t w = concluded-Uses _ _ _

  opened-Uses :
      (lsa : LsaCredentials) (r : Outcome (Unit {0}) × Session M.heci)
      → Uses M (opened M fuel chunks soap lsa r)
  opened-Uses lsa (ok u, t) = activate-Uses lsa t
  opened-Uses lsa (err e, t) =
      Uses-then M _ _ (leave-Uses t) λ a. Uses-then M _ _ (reconnect-Uses M) λ b. failed_rows-Uses _
  opened-Uses lsa (panics, t) = ended-Uses panics
  opened-Uses lsa (waits, t) = ended-Uses waits

  joined-Uses :
      (lsa : LsaCredentials) (r : Outcome (Unit {0}) × Session M.heci)
      → Uses M (joined M fuel chunks soap lsa r)
  joined-Uses lsa (ok u, t) = opened-Uses lsa _
  joined-Uses lsa (err e, t) = Uses-then M _ _ (modify-Uses M (λ c. M.resume c t.heci)) λ a.
      Uses-then M _ _ (reconnect-Uses M)
        λ b. failed_rows-Uses (line_prints (codes "Failed to open LME tunnel.") ∷ [])
  joined-Uses lsa (panics, t) = ended-Uses panics
  joined-Uses lsa (waits, t) = ended-Uses waits

  open_session-Uses : (lsa : LsaCredentials) → Uses M (open_session M fuel chunks soap lsa)
  unfolding Uses open_session
  open_session-Uses lsa w = joined-Uses lsa _ _

  with_account-Uses : (lsa : Option LsaCredentials) → Uses M (with_account M fuel chunks soap lsa)
  unfolding with_account
  with_account-Uses none = failed_rows-Uses _
  with_account-Uses (some lsa) = paint_first M _ _ (open_session-Uses lsa)

  activate_mode-Uses : (mode : Option ℕ) → Uses M (activate_mode M fuel chunks soap mode)
  unfolding activate_mode
  activate_mode-Uses none = show_first M _ _ (end_screen-Uses M)
  activate_mode-Uses (some mode) =
      if_Uses M (mode == 0) _ _
        (show_first M _ _ (try_first M (get_local_system_account (mei_of M)) _ with_account-Uses))
        (show_first M _ _ (end_screen-Uses M))

  pub do_activate_ccm-Uses : Uses M (do_activate_ccm M fuel chunks soap)
  unfolding do_activate_ccm
  do_activate_ccm-Uses =
      heading_first M _ _ _ (try_first M (get_control_mode (mei_of M)) _ activate_mode-Uses)
