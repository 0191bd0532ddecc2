-- ===== src/StrUtil/Tests.antt =====
-- Runs of src/str_util.rs, and its theorems at concrete inputs.

use amt_uefi_boot_app.StrUtil.Append.{append_bytes_lem}
use amt_uefi_boot_app.StrUtil.Find.{IsFirst, ascii_find_lem}
use amt_uefi_boot_app.StrUtil.{
  extract_field, append_hex32, append_bytes, ascii_len, hex_loop, ascii_find, field_loop,
  ascii_eq_ignore_case, ascii_lower, copy_value, field_value, span_len,
}
use amt_uefi_boot_app.Prelude.{
  List, ℕ, ◌≡◌, take, ◌∷◌, [], suc, refl, length, blit, ◌-◌, ◌++◌, ◌+◌, min, arith,
}

abbrev buffer : List ℕ
buffer = b'a' ∷ b'b' ∷ 0 ∷ 0 ∷ 0 ∷ 0 ∷ 0 ∷ 0 ∷ 0 ∷ 0 ∷ 0 ∷ 0 ∷ 0 ∷ []

-- `realm="x y", nonce=42`
abbrev header_line : List ℕ
header_line =
    b'r' ∷ b'e' ∷ b'a' ∷ b'l' ∷ b'm' ∷ b'=' ∷ b'"' ∷ b'x' ∷ b' ' ∷ b'y' ∷ b'"' ∷ b',' ∷ b' ' ∷ b'n'
    ∷ b'o' ∷ b'n' ∷ b'c' ∷ b'e' ∷ b'=' ∷ b'4' ∷ b'2' ∷ []

abbrev realm : List ℕ
realm = b'R' ∷ b'e' ∷ b'a' ∷ b'l' ∷ b'm' ∷ []

abbrev nonce : List ℕ
nonce = b'n' ∷ b'o' ∷ b'n' ∷ b'c' ∷ b'e' ∷ []

realm_runs : extract_field header_line realm (9 ∷ 9 ∷ 9 ∷ 9 ∷ []) ≡ (b'x' ∷ b' ' ∷ b'y' ∷ 0 ∷ [], 3)
unfolding extract_field ascii_len field_loop ascii_eq_ignore_case ascii_lower copy_value blit
    field_value span_len
realm_runs = refl

nonce_runs : extract_field header_line nonce (9 ∷ 9 ∷ 9 ∷ []) ≡ (b'4' ∷ b'2' ∷ 0 ∷ [], 2)
unfolding extract_field ascii_len field_loop ascii_eq_ignore_case ascii_lower copy_value blit
    field_value span_len
nonce_runs = refl

hex_runs :
    (append_hex32 (9 ∷ 9 ∷ 9 ∷ 9 ∷ 9 ∷ 9 ∷ 9 ∷ 9 ∷ 9 ∷ []) 0 0xbeef).0
    ≡ b'0' ∷ b'0' ∷ b'0' ∷ b'0' ∷ b'b' ∷ b'e' ∷ b'e' ∷ b'f' ∷ 9 ∷ []
unfolding append_hex32 hex_loop
hex_runs = refl

append_bytes_lem_example :
    let r = append_bytes buffer 2 (1 ∷ 2 ∷ []) in
    (take r.1 r.0 ≡ take (length buffer) (take 2 buffer ++ (1 ∷ 2 ∷ [])))
    × (length r.0 ≡ length buffer)
    × (r.1 ≡ min (length buffer) (2 + 2))
append_bytes_lem_example = append_bytes_lem buffer (1 ∷ 2 ∷ []) 2 (omega arith)

nonce_len : ascii_len nonce ≡ 5
unfolding ascii_len
nonce_len = refl

ascii_find_lem_example :
    IsFirst header_line
      (take (ascii_len nonce) nonce)
      0
      (suc (ascii_len header_line) - ascii_len nonce)
      (ascii_find header_line nonce)
ascii_find_lem_example = ascii_find_lem header_line nonce (omega (arith, nonce_len))
