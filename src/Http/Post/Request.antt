-- ===== src/Http/Post/Request.antt =====
-- What `post_wsman` of src/http.rs sends.
use amt_uefi_boot_app.Lme.Session.{Session}
use amt_uefi_boot_app.StrUtil.Append.{decimal}
use amt_uefi_boot_app.Http.Digest.Text.{pieces_text}
use amt_uefi_boot_app.Http.Digest.{header_pieces, is_set, next_count}
use amt_uefi_boot_app.Prelude.{List, ℕ, codes, if◌then◌else◌, ◌++◌, take, length, [], ◌%◌, ◌^◌}
use amt_uefi_boot_app.Http.Message.{DigestAuth}

-- The `Authorization` line: the header that answers the challenge, as far as 512 bytes go.
abbrev pub authorization_text : DigestAuth → List ℕ
authorization_text auth =
    if is_set auth.nonce
    then codes "Authorization: "
      ++ (take 512 (pieces_text (header_pieces (next_count auth))) ++ codes "\r\n")
    else []

abbrev pub header_text : List ℕ
header_text =
    codes
      "POST /wsman HTTP/1.1\r\nHost: 127.0.0.1:16992\r\nConnection: close\r\nContent-Type: application/soap+xml; charset=utf-8\r\nContent-Length: "

-- The whole request.
abbrev pub request_text : List ℕ → DigestAuth → List ℕ
request_text body auth =
    header_text
    ++ (decimal (length body % 2 ^ 32)
        ++ (codes "\r\n" ++ (authorization_text auth ++ (codes "\r\n" ++ body))))
