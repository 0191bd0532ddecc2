-- ===== src/Wsman/Tests.antt =====
-- The theorems on src/wsman.rs at concrete inputs.
use amt_uefi_boot_app.Wsman.Soap.Message.{setup_message_lem}
use amt_uefi_boot_app.Http.Digest.Formula.{hash_text}
use amt_uefi_boot_app.Wsman.Xml.Extract.{items_text, opens, xml_extract_lem, element_text}
use amt_uefi_boot_app.StrUtil.Terminated.{str}
use amt_uefi_boot_app.Wsman.Activate.Completed.{Completed}
use amt_uefi_boot_app.Amt.Getters.{LsaCredentials}
use amt_uefi_boot_app.Wsman.Soap.{build_setup_ccm}
use amt_uefi_boot_app.Wsman.Xml.{xml_extract}
use amt_uefi_boot_app.StrUtil.{ascii_len}
use amt_uefi_boot_app.Prelude.{
  [], List, replicate, ℕ, codes, length, ◌≡◌, ◌++◌, ◌<◌, take, true, arith, refl, ◌∷◌,
  length-replicate,
}
use amt_uefi_boot_app.Lme.Script.{script, session_at, wire}
use amt_uefi_boot_app.Http.Message.{DigestAuth, HttpResponse}
use amt_uefi_boot_app.Http.Post.{Link}
use amt_uefi_boot_app.Wsman.Call.{hash_admin_password}

-- The answer to the second message.
abbrev answer : List ℕ
answer =
    codes
      "<g:Setup_OUTPUT xmlns:g=\"x\"><g:ReturnValue xsi:type=\"u\">0</g:ReturnValue></g:Setup_OUTPUT>"

answer_str :
    str answer
    ≡ items_text (opens (codes "g:Setup_OUTPUT") b' ' (codes "xmlns:g=\"x\">") ∷ [])
      ++ element_text
          (codes "g:ReturnValue")
          (codes " xsi:type=\"u\"")
          (codes "0")
          (codes "/g:ReturnValue></g:Setup_OUTPUT>")
unfolding ascii_len
answer_str = refl

zero_free : ascii_len (codes "0") ≡ 1
unfolding ascii_len
zero_free = refl

xml_extract_lem_example :
    let (found, filled) = xml_extract answer (codes "ReturnValue") (replicate 16 0) in
    (found ≡ true) × (str filled ≡ take 15 (codes "0")) × (length filled ≡ 16)
xml_extract_lem_example =
    xml_extract_lem answer (replicate 16 0)
      (opens (codes "g:Setup_OUTPUT") b' ' (codes "xmlns:g=\"x\">") ∷ []) (codes "ReturnValue")
      (codes "g:ReturnValue") (codes " xsi:type=\"u\"") (codes "0")
      (codes "/g:ReturnValue></g:Setup_OUTPUT>") answer_str refl refl refl refl refl zero_free
      (omega arith)

abbrev realm : List ℕ
realm = codes "Digest:A4070000" ++ replicate 113 0

realm_fits : length (str realm) < 128
unfolding ascii_len
realm_fits = omega arith

setup_message_lem_example :
    let (buf, len) =
      build_setup_ccm (replicate 2048 7) (hash_admin_password realm (codes "P@ssw0rd")) in
    let (found, value) =
      xml_extract (take len buf) (codes "NetworkAdminPassword") (replicate 33 0) in
    (found ≡ true)
    × (str value ≡ hash_text (codes "admin:" ++ (str realm ++ (b':' ∷ codes "P@ssw0rd"))))
setup_message_lem_example =
    setup_message_lem (replicate 2048 7) realm (codes "P@ssw0rd") (length-replicate {A = ℕ} 2048 7)
      realm_fits (omega arith)

abbrev no_auth : DigestAuth
no_auth = record {
  username = replicate 64 0;
  password = replicate 64 0;
  realm = replicate 128 0;
  nonce = replicate 128 0;
  qop = replicate 32 0;
  opaque = replicate 128 0;
  nc = 0;
}

abbrev no_response : HttpResponse
no_response = record {
  status_code = 0;
  body = replicate 4096 0;
  body_len = 0;
  auth_realm = replicate 128 0;
  auth_nonce = replicate 128 0;
  auth_qop = replicate 32 0;
  auth_opaque = replicate 128 0;
}

-- The messages of one request: version, tcpip-forward, confirmation, the answer, close.
abbrev session_messages : List ℕ → List (List ℕ)
session_messages http_answer =
    (192 ∷ [])
    ∷ (80 ∷ 0 ∷ 0 ∷ 0 ∷ 1 ∷ b'x' ∷ 1 ∷ 0 ∷ 0 ∷ 0 ∷ 1 ∷ b'a' ∷ 0 ∷ 0 ∷ 0x42 ∷ 0x60 ∷ [])
    ∷ (91 ∷ 0 ∷ 0 ∷ 0 ∷ 1 ∷ 0 ∷ 0 ∷ 0 ∷ 5 ∷ 0 ∷ 0 ∷ 16 ∷ 0 ∷ 255 ∷ 255 ∷ 255 ∷ 255 ∷ [])
    ∷ (94 ∷ 0 ∷ 0 ∷ 0 ∷ 1 ∷ 0 ∷ 0 ∷ 0 ∷ length http_answer ∷ http_answer)
    ∷ (97 ∷ 0 ∷ 0 ∷ 0 ∷ 1 ∷ [])
    ∷ []

abbrev first_answer : List ℕ
first_answer = codes "HTTP/1.1 200 OK\r\n\r\n<g:DigestRealm>Digest:A4</g:DigestRealm>"

abbrev second_answer : List ℕ
second_answer = codes "HTTP/1.1 200 OK\r\n\r\n<g:ReturnValue>0</g:ReturnValue>"

abbrev link : Link script
link = record {
  session =
      session_at (wire (session_messages first_answer ++ session_messages second_answer))
        (replicate 4096 0) 0;
  request = replicate 2048 0;
  auth = no_auth;
  response = no_response;
}

abbrev account : LsaCredentials
account = record { username = codes "$$OsAdmin"; password = codes "secret" }
