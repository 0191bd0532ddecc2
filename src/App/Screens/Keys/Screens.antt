-- ===== src/App/Screens/Keys/Screens.antt =====
-- do_amt_info, do_deactivate and do_set_dns_suffix of src/main.rs give no keys back.
use amt_uefi_boot_app.Ui.Box.{show_working}
use amt_uefi_boot_app.Amt.Versions.{CodeVersions}
use amt_uefi_boot_app.App.Input.{read_line}
use amt_uefi_boot_app.Amt.Getters.{
  get_control_mode, unprovision, get_dns_suffix, get_provisioning_state, get_uuid,
  get_lan_interface_settings, get_local_system_account, set_dns_suffix, max_dns_suffix_len,
}
use amt_uefi_boot_app.Outcome.{Outcome, Error, in_bounds, ok, err, ◌>>◌, panics, waits, pure}
use amt_uefi_boot_app.Prelude.{
  List, Option, Bool, ℕ, length, some, if◌then◌else◌, ◌≤◌, arith, codes, ◌==◌, ◌∷◌, none,
  Bool-cases, ◌||◌, inl, inr, [], suc, false, zero, true, leb, take, replicate,
}
use amt_uefi_boot_app.App.Machine.{Machine, App, mei_of, show}
use amt_uefi_boot_app.App.Screens.Info.{do_amt_info, canary, info_screen, Texts}
use amt_uefi_boot_app.App.Screens.Deactivate.{
  do_deactivate, deactivate_mode, confirm, run_unprovision, mode_row, unprovision_rows,
}
use amt_uefi_boot_app.App.Screens.Suffix.{
  do_set_dns_suffix, set_suffix, new_suffix, current_suffix, input_line, took_line, after_line,
  suffix_rows,
}
use amt_uefi_boot_app.App.Screens.Keys.{
  Uses, paint_first, heading_first, done-Uses, Uses-then, show_first, try_first, error-Uses,
  end_screen-Uses, bounds-Uses, show-Uses, if_Uses, reconnect-Uses, wait_key-Uses,
  press_any_key-Uses, modify-Uses,
}

module _ (M : Machine) where
  pub mode_row-Uses : (label : List ℕ) (mode : Option ℕ) → Uses M (mode_row M label mode)
  mode_row-Uses label none = done-Uses M tt
  mode_row-Uses label (some mode) = show-Uses M _

  unprovision_rows-Uses : (result : Option Error) → Uses M (unprovision_rows M result)
  unprovision_rows-Uses none =
      show_first M _ _
        (try_first M (get_control_mode (mei_of M)) _ (mode_row-Uses (codes "New Mode")))
  unprovision_rows-Uses (some e) = show-Uses M _

  run_unprovision-Uses : Uses M (run_unprovision M)
  unfolding run_unprovision
  run_unprovision-Uses = paint_first M _ _ (
      Uses-then M _ _ (error-Uses M (unprovision (mei_of M))) λ result.
        Uses-then M _ _ (reconnect-Uses M) λ a.
          heading_first M _ _ _
            (Uses-then M _ _ (unprovision_rows-Uses result) (λ b. end_screen-Uses M)))

  deactivate_mode-Uses : (mode : Option ℕ) → Uses M (deactivate_mode M mode)
  unfolding deactivate_mode confirm
  deactivate_mode-Uses none = show_first M _ _ (end_screen-Uses M)
  deactivate_mode-Uses (some mode) =
      if_Uses M (mode == 0) _ _ (show_first M _ _ (end_screen-Uses M)) (
        if_Uses M (mode == 2) _ _ (show_first M _ _ (end_screen-Uses M)) (
          show_first M _ _ (
            Uses-then M _ _ (wait_key-Uses M) (λ ch.
              if_Uses M (ch == b'y' || ch == b'Y') _ _ run_unprovision-Uses (done-Uses M tt)))))

  pub do_deactivate-Uses : Uses M (do_deactivate M)
  unfolding do_deactivate
  do_deactivate-Uses = heading_first M _ _ _ (try_first M _ _ deactivate_mode-Uses)

  row-Uses :
      (b c : Bool) (texts : List (ℕ → List (List ℕ))) (other : App M (Unit {0}))
      → Uses M other
      → Uses M (if b then in_bounds c >> show M texts else other)
  row-Uses b c texts other p =
      if_Uses M b _ _ (Uses-then M _ _ (bounds-Uses M c) (λ a. show-Uses M texts)) p

  current_suffix-Uses : (cur : Option (List ℕ × ℕ)) → Uses M (current_suffix M cur)
  current_suffix-Uses none = done-Uses M tt
  current_suffix-Uses (some (cur, len)) =
      Uses-then M _ _ (row-Uses _ _ _ _ (show-Uses M _)) (λ a. show-Uses M _)

  new_suffix-Uses : (cur : Option (List ℕ × ℕ)) → Uses M (new_suffix M cur)
  new_suffix-Uses none = done-Uses M tt
  new_suffix-Uses (some (cur, len)) = row-Uses _ _ _ _ (show-Uses M _)

  suffix_rows-Uses : (result : Option Error) → Uses M (suffix_rows M result)
  suffix_rows-Uses none =
      show_first M _ _ (try_first M (get_dns_suffix (mei_of M)) _ new_suffix-Uses)
  suffix_rows-Uses (some e) = show-Uses M _

  set_suffix-Uses : (line : ℕ × List ℕ) → Uses M (set_suffix M line)
  unfolding set_suffix
  set_suffix-Uses (len, buf) = paint_first M _ _ (
      Uses-then M _ _ (bounds-Uses M (leb len (length buf))) λ a.
        Uses-then M _ _ (error-Uses M (set_dns_suffix (mei_of M) (take len buf))) λ result.
          heading_first M _ _ _
            (Uses-then M _ _ (suffix_rows-Uses result) (λ b. end_screen-Uses M)))

  length-after_line : (keys : List ℕ) → length (after_line M keys) ≤ length keys
  length-after_line [] = omega arith
  length-after_line (code ∷ keys) = elim (Bool-cases (code == 0x0D || code == 0x0A)) [
    | inl e ↦ rw e (omega arith)
    | inr e ↦ rw e (omega (arith, length-after_line keys))
  ]

  input_line-Uses : (buf : List ℕ) → Uses M (input_line M buf)
  unfolding Uses input_line
  input_line-Uses buf w = go (read_line w.keys buf)
    where
      go :
          (r : Outcome ℕ × List ℕ)
          → length (took_line M w r (after_line M w.keys)).1.keys ≤ length w.keys
      go (ok len, line) = length-after_line w.keys
      go (err e, line) = length-after_line w.keys
      go (panics, line) = length-after_line w.keys
      go (waits, line) = length-after_line w.keys

  pub do_set_dns_suffix-Uses : Uses M (do_set_dns_suffix M)
  unfolding do_set_dns_suffix
  do_set_dns_suffix-Uses = heading_first M _ _ _ (
      try_first M (get_dns_suffix (mei_of M)) _ λ cur.
        Uses-then M _ _ (current_suffix-Uses cur) λ a.
          show_first M _ _
            (Uses-then M _ _ (input_line-Uses (replicate max_dns_suffix_len 0)) set_suffix-Uses))

  answer-Uses :
      (again : App M (Option CodeVersions)) (answer : Option CodeVersions)
      → Uses M again
      → Uses M (elim answer [ none ↦ again | some cv ↦ pure (some cv) ])
  answer-Uses again none p = p
  answer-Uses again (some cv) p = done-Uses M (some cv)

  canary-Uses : (attempts : ℕ) → Uses M (canary M attempts)
  unfolding canary
  canary-Uses zero = done-Uses M none
  canary-Uses (suc attempts) = try_first M _ _ λ answer. answer-Uses _ answer (
      paint_first M (show_working (codes "AMT not ready, retrying...")) _ (
        Uses-then M _ _ (modify-Uses M M.heci.close)
          λ a. Uses-then M _ _ (reconnect-Uses M) λ b. canary-Uses attempts))

  suffix-Uses :
      (suffix : Option (List ℕ × ℕ))
      → Uses M (amt_uefi_boot_app.App.Screens.Info.suffix_rows M suffix)
  suffix-Uses none = done-Uses M tt
  suffix-Uses (some (suffix, len)) = row-Uses _ _ _ _ (done-Uses M tt)

  info_screen-Uses :
      (before after : Texts) (suffix : Option (List ℕ × ℕ))
      → Uses M (info_screen M before suffix after)
  unfolding info_screen
  info_screen-Uses before after suffix = heading_first M _ _ _ (
      show_first M _ _ (
        Uses-then M _ _ (suffix-Uses suffix)
          (λ a. show_first M _ _ (show_first M _ _ (press_any_key-Uses M)))))

  pub do_amt_info-Uses : Uses M (do_amt_info M)
  unfolding do_amt_info
  do_amt_info-Uses =
      let mei = mei_of M in
      paint_first M _ _ (
        Uses-then M _ _ (canary-Uses 30) λ cv. try_first M (get_control_mode mei) _ λ mode.
          try_first M (get_provisioning_state mei) _ λ state. try_first M (get_uuid mei) _ λ uuid.
            try_first M (get_dns_suffix mei) _ λ suffix.
              try_first M (get_lan_interface_settings mei false) _ λ wired.
                try_first M (get_lan_interface_settings mei true) _ λ wireless.
                  try_first M (get_local_system_account mei) _ λ lsa. info_screen-Uses _ _ suffix)
