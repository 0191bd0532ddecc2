-- ===== src/Http/Tests.antt =====
-- The theorems on src/http.rs at concrete inputs.
use amt_uefi_boot_app.Outcome.{waits}
use amt_uefi_boot_app.Http.Chunked.Endless.{endless_size, chunk_loop_endless}
use amt_uefi_boot_app.Http.Digest.{response_hex}
use amt_uefi_boot_app.Http.Digest.Formula.{IsAuth, response_text, response_hex_lem}
use amt_uefi_boot_app.Http.Chunked.Format.{Chunk}
use amt_uefi_boot_app.Http.Digest.Challenge.{IsSized, digest_from_challenge_lem}
use amt_uefi_boot_app.StrUtil.Terminated.{str}
use amt_uefi_boot_app.StrUtil.{ascii_len}
use amt_uefi_boot_app.Prelude.{
  ℕ, [], codes, replicate, length, List, ◌++◌, ◌≡◌, arith, refl, ◌-◌, take, ◌∷◌,
}
use amt_uefi_boot_app.Lme.Script.{script, session_at, wire}
use amt_uefi_boot_app.Http.Message.{DigestAuth, HttpResponse, digest_from_challenge}
use amt_uefi_boot_app.Http.Post.{Link}
use amt_uefi_boot_app.Http.Chunked.{chunk_loop}

abbrev field : ℕ → List ℕ → List ℕ
field size s = s ++ replicate (size - length s) 0

abbrev admin_auth : DigestAuth
admin_auth = record {
  username = field 64 (codes "admin");
  password = field 64 (codes "P@ssw0rd");
  realm = field 128 (codes "Digest:A4070000");
  nonce = field 128 (codes "KuAzGwAA");
  qop = field 32 (codes "auth");
  opaque = field 128 [];
  nc = 1;
}

admin_auth-IsAuth : IsAuth admin_auth
unfolding ascii_len
admin_auth-IsAuth = record {
  username_ends = (refl, omega arith);
  password_ends = (refl, omega arith);
  realm_ends = (refl, omega arith);
  nonce_ends = (refl, omega arith);
  qop_ends = (refl, omega arith);
  opaque_ends = (refl, omega arith);
}

response_hex_lem_example : str (response_hex admin_auth) ≡ response_text admin_auth
response_hex_lem_example = response_hex_lem admin_auth admin_auth-IsAuth

abbrev unauthorized : HttpResponse
unauthorized = record {
  status_code = 401;
  body = replicate 4096 0;
  body_len = 0;
  auth_realm = field 128 (codes "Digest:A4070000");
  auth_nonce = field 128 (codes "KuAzGwAA");
  auth_qop = field 32 (codes "auth");
  auth_opaque = field 128 [];
}

admin_auth-IsSized : IsSized admin_auth
admin_auth-IsSized = record {
  username_size = refl;
  password_size = refl;
  realm_size = refl;
  nonce_size = refl;
  qop_size = refl;
  opaque_size = refl;
}

digest_from_challenge_lem_example :
    let a = digest_from_challenge admin_auth unauthorized (codes "$$OsAdmin") (codes "pw") in
    IsAuth a
    × (str a.username ≡ take 63 (str (codes "$$OsAdmin")))
    × (str a.password ≡ take 63 (str (codes "pw")))
    × (str a.realm ≡ take 127 (str unauthorized.auth_realm))
    × (str a.nonce ≡ take 127 (str unauthorized.auth_nonce))
    × (str a.qop ≡ take 31 (str unauthorized.auth_qop))
    × (str a.opaque ≡ take 127 (str unauthorized.auth_opaque))
    × (a.nc ≡ 0)
digest_from_challenge_lem_example =
    digest_from_challenge_lem admin_auth unauthorized (codes "$$OsAdmin") (codes "pw")
      admin_auth-IsSized

abbrev link : Link script
link = record {
  session = session_at (wire []) (replicate 4096 0) 0;
  request = replicate 2048 0;
  auth = admin_auth;
  response = unauthorized;
}

-- Two chunks, of 4 and of 11 bytes.
abbrev two_chunks : List Chunk
two_chunks =
    record { size_text = codes "4"; bytes = codes "Wiki" }
    ∷ record { size_text = codes "0b"; bytes = codes "pedia in ch" }
    ∷ []

chunk_loop_endless_example :
    chunk_loop 100000
      (codes "HTTP/1.1 200 OK" ++ endless_size)
      (length (codes "HTTP/1.1 200 OK"))
      0
      unauthorized
    ≡ (waits, unauthorized)
chunk_loop_endless_example =
    chunk_loop_endless 100000 (codes "HTTP/1.1 200 OK") unauthorized (omega arith)
