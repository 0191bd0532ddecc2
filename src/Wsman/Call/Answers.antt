-- ===== src/Wsman/Call/Answers.antt =====
-- How `wsman_call` of src/wsman.rs ends.
use amt_uefi_boot_app.Prelude.{ℕ, List, ◌≡◌}
use amt_uefi_boot_app.Wsman.Call.{check_answer}
use amt_uefi_boot_app.Http.Post.{Link, post_wsman}
use amt_uefi_boot_app.Lme.Transport.{Heci}
use amt_uefi_boot_app.Outcome.{
  Outcome, Error, and_then, err, panics, ok, waits, access_denied, http_status,
}

module _ (H : Heci) (fuel chunks : ℕ) (body : List ℕ) where
  -- A request fails, or the last answer decides.
  pub data Ends : Outcome (Unit {0}) × Link H → Type 0 where
    post_failed :
        (s t : Link H) (e : Error) → post_wsman H fuel chunks body s ≡ (err e, t) → Ends (err e, t)
    post_panics : (s t : Link H) → post_wsman H fuel chunks body s ≡ (panics, t) → Ends (panics, t)
    post_waits : (s t : Link H) → post_wsman H fuel chunks body s ≡ (waits, t) → Ends (waits, t)
    accepted : (t : Link H) → t.response.status_code ≡ 200 → Ends (ok tt, t)
    denied : (t : Link H) → t.response.status_code ≡ 401 → Ends (err access_denied, t)
    rejected :
        (t : Link H)
        → ¬ t.response.status_code ≡ 200
        → ¬ t.response.status_code ≡ 401
        → Ends (err (http_status t.response.status_code), t)

  abbrev decided : Outcome (Unit {0}) × Link H → Outcome (Unit {0}) × Link H
  decided r = and_then r (λ _. check_answer H fuel chunks)
