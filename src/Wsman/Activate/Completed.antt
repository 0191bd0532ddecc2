-- ===== src/Wsman/Activate/Completed.antt =====
-- What it takes for `activate_ccm` of src/wsman.rs to report success.
use amt_uefi_boot_app.Prelude.{ℕ, ◌≡◌, codes, ◌≤◌, length}
use amt_uefi_boot_app.Wsman.Activate.{WsmanCcmResult, answer_field, read_return}
use amt_uefi_boot_app.Http.Post.{Link}
use amt_uefi_boot_app.Lme.Transport.{Heci}
use amt_uefi_boot_app.Outcome.{Outcome, ok, err, panics, waits}

module _ (H : Heci) (fuel chunks : ℕ) where
  -- With success, the last answer is the one that says so.
  abbrev pub Completed : Outcome WsmanCcmResult × Link H → Type 0
  Completed (ok r, t) =
      (t.response.status_code ≡ 200)
      × (r.setup_return ≡ 0)
      × (read_return (answer_field t.response (codes "ReturnValue") 16) ≡ 0)
      × (t.response.body_len ≤ length t.response.body)
  Completed (err e, t) = Unit
  Completed (panics, t) = Unit
  Completed (waits, t) = Unit
