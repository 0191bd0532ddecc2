-- ===== src/StrUtil.antt =====
-- src/str_util.rs: strings in byte buffers, ended by a zero byte or by the buffer's length.
pub mod Append
pub mod Find
pub mod Terminated
mod Tests
use amt_uefi_boot_app.Prelude.{
  ℕ, zero, suc, ◌+◌, ◌-◌, ◌*◌, ◌/◌, ◌%◌, ◌^◌, min, Bool, true, false, ◌&&◌, Option, none, some,
  List, [], ◌∷◌, ◌==◌, ltb, leb, if◌then◌else◌, length, get_or, take, drop, slice, blit, set, ◌||◌,
  same_bytes,
}

unfoldable pub ascii_len : List ℕ → ℕ
ascii_len [] = 0
ascii_len (x ∷ s) = let rest = ascii_len s in if x == 0 then 0 else suc rest

-- The loop of `ascii_find` over `left` positions from `i` on.
unfoldable pub find_loop : List ℕ → List ℕ → ℕ → ℕ → Option ℕ
find_loop haystack needle zero i = none
find_loop haystack needle (suc left) i =
    let later = find_loop haystack needle left (suc i) in
    if same_bytes (slice haystack i (i + length needle)) needle then some i else later

unfoldable pub ascii_find : List ℕ → List ℕ → Option ℕ
ascii_find haystack needle =
    let h_len = ascii_len haystack in
    let n_len = ascii_len needle in
    if n_len == 0
    then some 0
    else if ltb h_len n_len
    then none
    else find_loop haystack (take n_len needle) (suc (h_len - n_len)) 0

unfoldable pub append_bytes : List ℕ → ℕ → List ℕ → List ℕ × ℕ
append_bytes buf pos s =
    let copy_len = min (length s) (length buf - pos) in
    (if ltb 0 copy_len then blit buf pos (take copy_len s) else buf, pos + copy_len)

unfoldable pub ascii_append : List ℕ → ℕ → List ℕ → List ℕ × ℕ
ascii_append buf pos s =
    let copy_len = min (ascii_len s) (length buf - pos) in
    (if ltb 0 copy_len then blit buf pos (take copy_len s) else buf, pos + copy_len)

-- One byte, if there is room for it.
abbrev pub put_byte : List ℕ → ℕ → ℕ → List ℕ × ℕ
put_byte buf pos byte = if ltb pos (length buf) then (set buf pos byte, pos + 1) else (buf, pos)

-- The bytes of `tmp` that the loop of `append_u32` fills, last digit first; `fuel` is the size of
-- `tmp`, of which the eleventh digit would be out of bounds.
unfoldable pub digits : ℕ → ℕ → List ℕ
digits zero n = []
digits (suc fuel) n = let rest = digits fuel (n / 10) in if n == 0 then [] else (48 + n % 10) ∷ rest

-- The second loop, from the last byte of `tmp` to the first.
unfoldable pub put_reversed : List ℕ → List ℕ → ℕ → List ℕ × ℕ
put_reversed [] buf pos = (buf, pos)
put_reversed (d ∷ tmp) buf pos = let (buf', pos') = put_reversed tmp buf pos in put_byte buf' pos' d

unfoldable pub append_u32 : List ℕ → ℕ → ℕ → List ℕ × ℕ
append_u32 buf pos val =
    if val == 0 then append_bytes buf pos (48 ∷ []) else put_reversed (digits 10 val) buf pos

abbrev pub hex_digit : ℕ → ℕ
hex_digit d = if ltb d 10 then 48 + d else 87 + d

-- The digits from bit `4 * i` down.
unfoldable pub hex_loop : ℕ → ℕ → List ℕ → ℕ → List ℕ × ℕ
hex_loop zero val buf pos = (buf, pos)
hex_loop (suc i) val buf pos =
    let (buf', pos') = put_byte buf pos (hex_digit (val / 2 ^ (i * 4) % 16)) in
    hex_loop i val buf' pos'

unfoldable pub append_hex32 : List ℕ → ℕ → ℕ → List ℕ × ℕ
append_hex32 buf pos val = hex_loop 8 val buf pos

unfoldable pub ascii_lower : ℕ → ℕ
ascii_lower c = if leb 65 c && leb c 90 then c + 32 else c

unfoldable pub ascii_eq_ignore_case : List ℕ → List ℕ → Bool
ascii_eq_ignore_case [] [] = true
ascii_eq_ignore_case [] (y ∷ b) = false
ascii_eq_ignore_case (x ∷ a) [] = false
ascii_eq_ignore_case (x ∷ a) (y ∷ b) = ascii_lower x == ascii_lower y && ascii_eq_ignore_case a b

-- The bytes before the first one that ends a value.
unfoldable pub span_len : (ℕ → Bool) → List ℕ → ℕ
span_len ends [] = 0
span_len ends (x ∷ s) = let rest = span_len ends s in if ends x then 0 else suc rest

abbrev pub ends_quoted : ℕ → Bool
ends_quoted c = c == 34

abbrev pub ends_plain : ℕ → Bool
ends_plain c = c == 44 || (c == 32 || (c == 13 || c == 10))

-- A value into `out`, with a zero behind it if there is room.
unfoldable pub copy_value : List ℕ → List ℕ → List ℕ × ℕ
copy_value value out =
    let copy = min (length value) (length out) in (set (blit out 0 (take copy value)) copy 0, copy)

-- The value that starts at `val_start`, up to the end of the string.
unfoldable pub field_value : List ℕ → ℕ → List ℕ
field_value src val_start =
    let plain = drop val_start src in
    let quoted = drop (val_start + 1) src in
    if ltb val_start (length src) && get_or src val_start 0 == 34
    then take (span_len ends_quoted quoted) quoted
    else take (span_len ends_plain plain) plain

-- The positions from `i` on, of which `left` remain. `src` ends where its string ends.
unfoldable pub field_loop : List ℕ → List ℕ → List ℕ → ℕ → ℕ → List ℕ × ℕ
field_loop src key out zero i = (out, 0)
field_loop src key out (suc left) i =
    let later = field_loop src key out left (suc i) in
    let end = i + length key in
    if ascii_eq_ignore_case (slice src i end) key && get_or src end 0 == 61
    then copy_value (field_value src (end + 1)) out
    else later

unfoldable pub extract_field : List ℕ → List ℕ → List ℕ → List ℕ × ℕ
extract_field src key out =
    let src_len = ascii_len src in
    let key_len = ascii_len key in
    if key_len == 0 || src_len == 0
    then (out, 0)
    else field_loop (take src_len src) (take key_len key) out (src_len - key_len) 0
