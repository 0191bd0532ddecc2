-- ===== src/Http/Parse.antt =====
-- `parse_response` of src/http.rs.
use amt_uefi_boot_app.Http.Chunked.{decode_chunked}
use amt_uefi_boot_app.Outcome.{Action, modify, ◌>>◌, in_bounds, fail, protocol_error}
use amt_uefi_boot_app.StrUtil.{ascii_find, extract_field}
use amt_uefi_boot_app.Http.Message.{HttpResponse, http_max_body}
use amt_uefi_boot_app.Prelude.{
  ℕ, Option, List, some, Bool, ◌∷◌, length, set, leb, if◌then◌else◌, ◌*◌, codes, false, ◌-◌, [],
  take, none, ◌&&◌, ◌+◌, ◌==◌, drop, true, ◌||◌, ltb, ◌%◌, min, ◌^◌, blit, slice,
}

-- `or_else`
abbrev pub first_of : Option ℕ → Option ℕ → Option ℕ
first_of none b = b
first_of (some a) b = some a

abbrev pub is_digit : ℕ → Bool
is_digit b = leb b'0' b && leb b b'9'

-- The three places of the status code; a byte that is no digit is passed over.
unfoldable pub status_digits : List ℕ → ℕ → ℕ
status_digits [] code = code
status_digits (b ∷ bytes) code =
    status_digits bytes (if is_digit b then code * 10 + (b - b'0') else code)

unfoldable pub skip_spaces : List ℕ → List ℕ
skip_spaces [] = []
skip_spaces (b ∷ bytes) = let rest = skip_spaces bytes in if b == b' ' then rest else b ∷ bytes

-- `content_length` has 32 bits and wraps.
unfoldable pub read_number : List ℕ → ℕ → ℕ
read_number [] n = n
read_number (b ∷ bytes) n =
    let rest = read_number bytes ((n * 10 + (b - b'0')) % 2 ^ 32) in if is_digit b then rest else n

unfoldable pub content_length : List ℕ → ℕ
content_length raw =
    elim (first_of (ascii_find raw (codes "Content-Length:"))
      (ascii_find raw (codes "content-length:"))) [
        | none ↦ 0
        | some pos ↦ read_number (skip_spaces (drop (pos + 15) raw)) 0
      ]

-- The fields of the challenge of a 401.
unfoldable pub read_challenge : List ℕ → HttpResponse → HttpResponse
read_challenge raw r =
    elim (first_of (ascii_find raw (codes "WWW-Authenticate:"))
      (ascii_find raw (codes "www-authenticate:"))) [
        | none ↦ r
        | some pos ↦
            let line = drop pos raw in
            record r {
              auth_realm = (extract_field line (codes "realm") r.auth_realm).0;
              auth_nonce = (extract_field line (codes "nonce") r.auth_nonce).0;
              auth_qop = (extract_field line (codes "qop") r.auth_qop).0;
              auth_opaque = (extract_field line (codes "opaque") r.auth_opaque).0;
            }
      ]

abbrev pub is_found : Option ℕ → Bool
is_found none = false
is_found (some pos) = true

unfoldable pub is_chunked : List ℕ → Bool
is_chunked head =
    is_found (ascii_find head (codes "Transfer-Encoding: chunked"))
    || (is_found (ascii_find head (codes "transfer-encoding: chunked"))
        || is_found (ascii_find head (codes "Transfer-Encoding:chunked")))

-- The body that Content-Length bounds.
unfoldable pub copy_body : List ℕ → ℕ → HttpResponse → HttpResponse
copy_body raw body_start r =
    let avail = length raw - body_start in
    let stated = content_length raw in
    let bounded = if ltb 0 stated && ltb stated avail then stated else avail in
    let to_copy = min bounded (http_max_body - 1) in
    record r {
      body = set (blit r.body 0 (slice raw body_start (body_start + to_copy))) to_copy 0;
      body_len = to_copy;
    }

abbrev pub clear_response : HttpResponse → HttpResponse
clear_response r = record r {
  status_code = 0;
  body_len = 0;
  body = set r.body 0 0;
  auth_realm = set r.auth_realm 0 0;
  auth_nonce = set r.auth_nonce 0 0;
  auth_qop = set r.auth_qop 0 0;
  auth_opaque = set r.auth_opaque 0 0;
}

-- Where the body starts: behind the empty line.
unfoldable pub body_start : List ℕ → ℕ
body_start raw = elim (ascii_find raw (13 ∷ 10 ∷ 13 ∷ 10 ∷ [])) [
  | none ↦ length raw
  | some pos ↦ pos + 4
]

-- What follows the version. `sp` is the place of the status code.
unfoldable pub parse_from : ℕ → List ℕ → ℕ → Action HttpResponse (Unit {0})
parse_from fuel raw sp =
    let status = status_digits (take 3 (drop sp raw)) 0 in
    modify (λ (r : HttpResponse). record r { status_code = status })
    >> (modify (λ (r : HttpResponse). if status == 401 then read_challenge raw r else r)
        >> (if is_chunked (take (body_start raw) raw)
            then decode_chunked fuel raw (body_start raw)
            else modify (copy_body raw (body_start raw))))

-- `fuel` bounds the chunks.
unfoldable pub parse_response : ℕ → List ℕ → ℕ → Action HttpResponse (Unit {0})
parse_response fuel bytes len =
    let raw = take len bytes in
    let version =
      first_of (ascii_find raw (codes "HTTP/1.1 ")) (ascii_find raw (codes "HTTP/1.0 ")) in
    modify clear_response
    >> (in_bounds (leb len (length bytes))
        >> elim version [ none ↦ fail protocol_error | some pos ↦ parse_from fuel raw (pos + 9) ])
