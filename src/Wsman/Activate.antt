-- ===== src/Wsman/Activate.antt =====
-- `activate_ccm` of src/wsman.rs. `soap` is `SOAP_BUF`.
pub mod Completed
use amt_uefi_boot_app.Wsman.Call.{wsman_call, hash_admin_password}
use amt_uefi_boot_app.StrUtil.{ascii_len}
use amt_uefi_boot_app.Wsman.Soap.{build_get_general_settings, build_setup_ccm}
use amt_uefi_boot_app.Wsman.Xml.{xml_extract}
use amt_uefi_boot_app.Http.Message.{DigestAuth, HttpResponse}
use amt_uefi_boot_app.Prelude.{
  ℕ, Bool, List, set, min, if◌then◌else◌, take, leb, codes, blit, replicate, length, ◌==◌,
}
use amt_uefi_boot_app.Http.Post.{Link}
use amt_uefi_boot_app.Lme.Transport.{Heci}
use amt_uefi_boot_app.Http.Parse.{clear_response, read_number}
use amt_uefi_boot_app.Amt.Getters.{LsaCredentials}
use amt_uefi_boot_app.Outcome.{not_found, device_error, Action, in_bounds, ◌>>◌, ok, err}

pub record WsmanCcmResult : Type 0 where
  pub setup_return : ℕ
  pub digest_realm : List ℕ

-- A string of at most `max` bytes at the start of an array.
unfoldable pub put_str : ℕ → List ℕ → List ℕ → List ℕ
put_str max dst src = let len = min (ascii_len src) max in set (blit dst 0 (take len src)) len 0

-- The account's name and password; the rest waits for the first 401.
unfoldable pub start_auth : LsaCredentials → DigestAuth → DigestAuth
start_auth lsa auth = record {
  username = put_str 63 (set auth.username 0 0) lsa.username;
  password = put_str 63 (set auth.password 0 0) lsa.password;
  realm = set auth.realm 0 0;
  nonce = set auth.nonce 0 0;
  qop = set auth.qop 0 0;
  opaque = set auth.opaque 0 0;
  nc = 0;
}

-- The text of an element of the last answer.
unfoldable pub answer_field : HttpResponse → List ℕ → ℕ → Bool × List ℕ
answer_field resp suffix size = xml_extract (take resp.body_len resp.body) suffix (replicate size 0)

-- The loop over the digits has 32 bits and wraps.
unfoldable pub read_return : Bool × List ℕ → ℕ
read_return (found, ret_val) =
    if found then read_number (take (ascii_len ret_val) ret_val) 0 else 0xFFFFFFFF

module _ (H : Heci) (fuel chunks : ℕ) where
  unfoldable pub start_link : LsaCredentials → Link H → Link H
  start_link lsa s = record s { response = clear_response s.response; auth = start_auth lsa s.auth }

  -- `&resp.body[..resp.body_len as usize]`
  unfoldable pub check_body : Action (Link H) (Unit {0})
  check_body s = in_bounds (leb s.response.body_len (length s.response.body)) s

  -- From the answer to the second message on.
  unfoldable pub finish : List ℕ → Action (Link H) WsmanCcmResult
  finish digest_realm = check_body >> λ s.
      let setup_return = read_return (answer_field s.response (codes "ReturnValue") 16) in
      let result : WsmanCcmResult = record {
        setup_return = setup_return;
        digest_realm = put_str 127 (replicate 128 0) digest_realm;
      } in
      if setup_return == 0 then (ok result, s) else (err device_error, s)

  -- From the answer to the first message on.
  unfoldable pub set_up : List ℕ → List ℕ → Action (Link H) WsmanCcmResult
  set_up soap admin_password = check_body >> λ s.
      let (found, digest_realm) = answer_field s.response (codes "DigestRealm") 128 in
      let (soap', soap_len) =
        build_setup_ccm soap (hash_admin_password digest_realm admin_password) in
      if found
      then (wsman_call H fuel chunks (take soap_len soap') >> finish digest_realm) s
      else (err not_found, s)

  unfoldable pub activate_ccm : LsaCredentials → List ℕ → List ℕ → Action (Link H) WsmanCcmResult
  activate_ccm lsa admin_password soap s =
      let (soap', soap_len) = build_get_general_settings soap in
      (wsman_call H fuel chunks (take soap_len soap') >> set_up soap' admin_password)
        (start_link lsa s)
