-- ===== src/App/Format.antt =====
-- The formatting helpers of src/main.rs. Each writes its buffer by index from the start on.
use amt_uefi_boot_app.StrUtil.{hex_digit}
use amt_uefi_boot_app.Prelude.{
  ℕ, List, if◌then◌else◌, ◌∷◌, codes, leb, ltb, ◌/◌, [], ◌==◌, ◌+◌, ◌++◌, ◌%◌, ◌||◌, get_or,
}
pub mod Ipv4
use amt_uefi_boot_app.Http.Digest.{Piece, byte, raw, number, append_pieces, hex_digest}
use amt_uefi_boot_app.Outcome.{
  Error, timeout, not_found, device_error, buffer_too_small, unsupported, access_denied,
  protocol_error, aborted, amt_status, http_status,
}

abbrev pub octet_pieces : ℕ → List Piece
octet_pieces octet =
    (if leb 100 octet then byte (b'0' + octet / 100) ∷ [] else [])
    ++ ((if leb 10 octet then byte (b'0' + octet / 10 % 10) ∷ [] else [])
        ++ (byte (b'0' + octet % 10) ∷ []))

-- The octets from index `i` on.
abbrev pub ipv4_pieces : ℕ → List ℕ → List Piece
ipv4_pieces i [] = []
ipv4_pieces i (octet ∷ addr) =
    (if ltb 0 i then byte b'.' ∷ [] else []) ++ (octet_pieces octet ++ ipv4_pieces (i + 1) addr)

unfoldable pub format_ipv4 : List ℕ → List ℕ → List ℕ × ℕ
format_ipv4 addr buf = append_pieces (ipv4_pieces 0 addr) buf 0

abbrev pub hex_pieces : ℕ → List Piece
hex_pieces b = byte (hex_digit (b / 16)) ∷ byte (hex_digit (b % 16)) ∷ []

abbrev pub mac_pieces : ℕ → List ℕ → List Piece
mac_pieces i [] = []
mac_pieces i (b ∷ addr) =
    (if ltb 0 i then byte b':' ∷ [] else []) ++ (hex_pieces b ++ mac_pieces (i + 1) addr)

unfoldable pub format_mac : List ℕ → List ℕ → List ℕ
format_mac addr buf = (append_pieces (mac_pieces 0 addr) buf 0).0

-- The order of the bytes: the first three fields are little-endian.
abbrev pub uuid_order : List ℕ
uuid_order = 3 ∷ 2 ∷ 1 ∷ 0 ∷ 5 ∷ 4 ∷ 7 ∷ 6 ∷ 8 ∷ 9 ∷ 10 ∷ 11 ∷ 12 ∷ 13 ∷ 14 ∷ 15 ∷ []

abbrev pub uuid_pieces : List ℕ → ℕ → List ℕ → List Piece
uuid_pieces uuid i [] = []
uuid_pieces uuid i (idx ∷ order) =
    (if i == 4 || (i == 6 || (i == 8 || i == 10)) then byte b'-' ∷ [] else [])
    ++ (hex_pieces (get_or uuid idx 0) ++ uuid_pieces uuid (i + 1) order)

unfoldable pub format_uuid : List ℕ → List ℕ → List ℕ
format_uuid uuid buf = (append_pieces (uuid_pieces uuid 0 uuid_order) buf 0).0

-- A byte of a code is written only where the buffer has room.
abbrev pub error_pieces : Error → List Piece
error_pieces timeout = raw (codes "FAILED (Timeout)") ∷ []
error_pieces not_found = raw (codes "FAILED (Not Found)") ∷ []
error_pieces access_denied = raw (codes "FAILED (Access Denied)") ∷ []
error_pieces device_error = raw (codes "FAILED (Device Error)") ∷ []
error_pieces protocol_error = raw (codes "FAILED (Protocol Error)") ∷ []
error_pieces buffer_too_small = raw (codes "FAILED (Buffer Too Small)") ∷ []
error_pieces unsupported = raw (codes "FAILED (Unsupported)") ∷ []
error_pieces aborted = raw (codes "FAILED (Aborted)") ∷ []
error_pieces (amt_status c) = raw (codes "FAILED (AMT ") ∷ number c ∷ raw (codes ")") ∷ []
error_pieces (http_status c) = raw (codes "FAILED (HTTP ") ∷ number c ∷ raw (codes ")") ∷ []

unfoldable pub format_error : List ℕ → Error → List ℕ × ℕ
format_error buf e = append_pieces (error_pieces e) buf 0

-- The digits and the suffix fit the 24 bytes, for a length of at most ten digits.
unfoldable pub format_pwd_len : List ℕ → ℕ → List ℕ × ℕ
format_pwd_len buf len = append_pieces (byte b'(' ∷ number len ∷ raw (codes " chars)") ∷ []) buf 0
