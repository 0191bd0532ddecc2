-- ===== src/Wsman/Call.antt =====
-- `wsman_call` and `hash_admin_password` of src/wsman.rs.
use amt_uefi_boot_app.Outcome.{Action, pure, ◌>>◌, ok, err, access_denied, http_status}
use amt_uefi_boot_app.Prelude.{ℕ, List, codes, Option, ◌∷◌, if◌then◌else◌, [], suc, ◌==◌, zero}
pub mod Answers
use amt_uefi_boot_app.Http.Post.{Link, post_wsman}
use amt_uefi_boot_app.Lme.Transport.{Heci}
use amt_uefi_boot_app.Http.Message.{digest_from_challenge}
use amt_uefi_boot_app.Http.Digest.{raw, text, byte, hex_digest, written}

unfoldable pub hash_admin_password : List ℕ → List ℕ → List ℕ
hash_admin_password digest_realm password =
    hex_digest
      (written 256 (raw (codes "admin:") ∷ text digest_realm ∷ byte b':' ∷ raw password ∷ []))

-- The answer of a 401 goes into the next attempt.
abbrev pub take_challenge : {H : Heci} → Link H → Link H
take_challenge s = record s {
  auth = digest_from_challenge s.auth s.response s.auth.username s.auth.password;
}

module _ (H : Heci) (fuel chunks : ℕ) where
  unfoldable pub call_loop : ℕ → List ℕ → Action (Link H) (Unit {0})
  call_loop zero body = pure tt
  call_loop (suc attempts) body =
      let again = call_loop attempts body in
      post_wsman H fuel chunks body >> λ s.
      if s.response.status_code == 401 then again (take_challenge s) else (ok tt, s)

  abbrev pub check_answer : Action (Link H) (Unit {0})
  check_answer s =
      let code = s.response.status_code in
      if code == 401
      then (err access_denied, s)
      else if code == 200
      then (ok tt, s)
      else (err (http_status code), s)

  unfoldable pub wsman_call : List ℕ → Action (Link H) (Unit {0})
  wsman_call body = call_loop 3 body >> check_answer
