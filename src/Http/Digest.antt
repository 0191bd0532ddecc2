-- ===== src/Http/Digest.antt =====
-- `build_auth_header` of src/http.rs. `a1` has 256 bytes and `resp_input` 512.
use amt_uefi_boot_app.StrUtil.{append_bytes, ascii_append, append_hex32, append_u32}
use amt_uefi_boot_app.Http.Message.{DigestAuth}
use amt_uefi_boot_app.Prelude.{
  ℕ, List, ◌∷◌, replicate, codes, Bool, take, ◌+◌, set, [], not, if◌then◌else◌, ◌%◌, get_or, ◌^◌,
  ◌==◌,
}
pub mod Text
pub mod Formula
pub mod Challenge
use amt_uefi_boot_app.Md5.{md5_hash, md5_hex}

-- What is appended: raw bytes, a string up to its zero, a byte written by index, or a number.
pub data Piece : Type 0 where
  raw : List ℕ → Piece
  text : List ℕ → Piece
  byte : ℕ → Piece
  number : ℕ → Piece

unfoldable pub append_piece : List ℕ → ℕ → Piece → List ℕ × ℕ
append_piece buf pos (raw s) = append_bytes buf pos s
append_piece buf pos (text s) = ascii_append buf pos s
append_piece buf pos (byte b) = (set buf pos b, pos + 1)
append_piece buf pos (number n) = append_u32 buf pos n

unfoldable pub append_pieces : List Piece → List ℕ → ℕ → List ℕ × ℕ
append_pieces [] buf pos = (buf, pos)
append_pieces (p ∷ pieces) buf pos =
    let (buf', pos') = append_piece buf pos p in append_pieces pieces buf' pos'

-- The bytes that some pieces leave in a fresh buffer of `size` bytes.
unfoldable pub written : ℕ → List Piece → List ℕ
written size pieces = let (buf, pos) = append_pieces pieces (replicate size 0) 0 in take pos buf

abbrev pub hex_digest : List ℕ → List ℕ
hex_digest bytes = md5_hex (md5_hash bytes)

abbrev pub cnonce : List ℕ
cnonce = codes "uefiboot"

unfoldable pub ha1_pieces : DigestAuth → List Piece
ha1_pieces auth =
    text auth.username ∷ byte b':' ∷ text auth.realm ∷ byte b':' ∷ text auth.password ∷ []

unfoldable pub ha1_hex : DigestAuth → List ℕ
ha1_hex auth = hex_digest (written 256 (ha1_pieces auth))

unfoldable pub ha2_hex : List ℕ
ha2_hex = hex_digest (codes "POST:/wsman")

-- `auth.qop[0] != 0`
abbrev pub is_set : List ℕ → Bool
is_set field = not (get_or field 0 0 == 0)

unfoldable pub nc_str : ℕ → List ℕ
nc_str nc = take 8 (append_hex32 (replicate 9 0) 0 nc).0

unfoldable pub response_pieces : DigestAuth → List Piece
response_pieces auth =
    let with_qop =
      raw (nc_str auth.nc)
      ∷ byte b':'
      ∷ raw cnonce
      ∷ byte b':'
      ∷ raw (codes "auth")
      ∷ byte b':'
      ∷ text ha2_hex
      ∷ [] in
    text (ha1_hex auth)
    ∷ byte b':'
    ∷ text auth.nonce
    ∷ byte b':'
    ∷ (if is_set auth.qop then with_qop else text ha2_hex ∷ [])

unfoldable pub response_hex : DigestAuth → List ℕ
response_hex auth = hex_digest (written 512 (response_pieces auth))

unfoldable pub qop_pieces : DigestAuth → List Piece
qop_pieces auth =
    let pieces =
      raw (codes ",qop=\"auth\",nc=\"")
      ∷ raw (nc_str auth.nc)
      ∷ raw (codes "\",cnonce=\"")
      ∷ raw cnonce
      ∷ raw (codes "\"")
      ∷ [] in
    if is_set auth.qop then pieces else []

unfoldable pub header_pieces : DigestAuth → List Piece
header_pieces auth =
    let opaque_pieces =
      raw (codes ",opaque=\"") ∷ text auth.opaque ∷ raw (codes "\"") ∷ qop_pieces auth in
    raw (codes "Digest username=\"")
    ∷ text auth.username
    ∷ raw (codes "\",realm=\"")
    ∷ text auth.realm
    ∷ raw (codes "\",nonce=\"")
    ∷ text auth.nonce
    ∷ raw (codes "\",uri=\"/wsman\",response=\"")
    ∷ text (response_hex auth)
    ∷ raw (codes "\"")
    ∷ (if is_set auth.opaque then opaque_pieces else qop_pieces auth)

-- `auth.nc += 1`, on 32 bits.
abbrev pub next_count : DigestAuth → DigestAuth
next_count auth = record auth { nc = (auth.nc + 1) % 2 ^ 32 }

-- The count is one more in every part of the header. The result is the buffer and the length.
unfoldable pub build_auth_header : DigestAuth → List ℕ → DigestAuth × List ℕ × ℕ
build_auth_header auth buf =
    let counted = next_count auth in
    let (filled, len) = append_pieces (header_pieces counted) buf 0 in
    (counted, set filled len 0, len)
