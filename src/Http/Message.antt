-- ===== src/Http/Message.antt =====
-- `HttpResponse` and `DigestAuth` of src/http.rs.
use amt_uefi_boot_app.StrUtil.{ascii_len}
use amt_uefi_boot_app.Prelude.{ℕ, List, min, length, ◌-◌, set, blit, take}

pub record HttpResponse : Type 0 where
  pub status_code : ℕ
  pub body : List ℕ
  pub body_len : ℕ
  pub auth_realm : List ℕ
  pub auth_nonce : List ℕ
  pub auth_qop : List ℕ
  pub auth_opaque : List ℕ

pub record DigestAuth : Type 0 where
  pub username : List ℕ
  pub password : List ℕ
  pub realm : List ℕ
  pub nonce : List ℕ
  pub qop : List ℕ
  pub opaque : List ℕ
  pub nc : ℕ

abbrev pub http_max_body : ℕ
http_max_body = 4096

-- `dst` is never empty.
unfoldable pub copy_str : List ℕ → List ℕ → List ℕ
copy_str dst src =
    let len = min (ascii_len src) (length dst - 1) in set (blit dst 0 (take len src)) len 0

-- `digest_from_challenge`; what it logs is left out.
unfoldable pub digest_from_challenge : DigestAuth → HttpResponse → List ℕ → List ℕ → DigestAuth
digest_from_challenge auth challenge username password = record {
  username = copy_str auth.username username;
  password = copy_str auth.password password;
  realm = copy_str auth.realm challenge.auth_realm;
  nonce = copy_str auth.nonce challenge.auth_nonce;
  qop = copy_str auth.qop challenge.auth_qop;
  opaque = copy_str auth.opaque challenge.auth_opaque;
  nc = 0;
}
