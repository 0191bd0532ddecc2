-- ===== src/App/Utf8.antt =====
-- `core::str::from_utf8`, as src/main.rs uses it on bytes that come from the management engine: the
-- characters, if the bytes are well-formed UTF-8.

use amt_uefi_boot_app.Prelude.{
  ℕ, Option, List, if◌then◌else◌, some, ltb, ◌∷◌, suc, none, ◌-◌, ◌*◌, ◌==◌, ◌+◌, ◌||◌, zero, [],
}

-- After a first byte: how many bytes follow, its bits of the code, and the range of the next byte.
pub record Lead : Type 0 where
  pub left : ℕ
  pub bits : ℕ
  pub lowest : ℕ
  pub highest : ℕ

abbrev pub lead : ℕ → Option Lead
lead b =
    if ltb b 0xC2
    then none
    else if ltb b 0xE0
    then some (record { left = 1; bits = b - 0xC0; lowest = 0x80; highest = 0xBF })
    else if b == 0xE0
    then some (record { left = 2; bits = 0; lowest = 0xA0; highest = 0xBF })
    else if b == 0xED
    then some (record { left = 2; bits = 13; lowest = 0x80; highest = 0x9F })
    else if ltb b 0xF0
    then some (record { left = 2; bits = b - 0xE0; lowest = 0x80; highest = 0xBF })
    else if b == 0xF0
    then some (record { left = 3; bits = 0; lowest = 0x90; highest = 0xBF })
    else if ltb b 0xF4
    then some (record { left = 3; bits = b - 0xF0; lowest = 0x80; highest = 0xBF })
    else if b == 0xF4
    then some (record { left = 3; bits = 4; lowest = 0x80; highest = 0x8F })
    else none

abbrev pub with_char : ℕ → Option (List ℕ) → Option (List ℕ)
with_char ch none = none
with_char ch (some text) = some (ch ∷ text)

abbrev pub follow : Option Lead → (Lead → Option (List ℕ)) → Option (List ℕ)
follow none k = none
follow (some l) k = k l

-- In a character of which `left` bytes are missing, or between characters.
unfoldable pub utf8_chars : ℕ → Lead → List ℕ → Option (List ℕ)
utf8_chars zero l [] = some []
utf8_chars (suc left) l [] = none
utf8_chars zero l (b ∷ bytes) =
    if ltb b 0x80
    then with_char b (utf8_chars 0 l bytes)
    else follow (lead b) (λ k. utf8_chars k.left k bytes)
utf8_chars (suc left) l (b ∷ bytes) =
    let code = l.bits * 64 + (b - 0x80) in
    let next = record l { bits = code; lowest = 0x80; highest = 0xBF } in
    if ltb b l.lowest || ltb l.highest b
    then none
    else if left == 0
    then with_char code (utf8_chars 0 l bytes)
    else utf8_chars left next bytes

unfoldable pub from_utf8 : List ℕ → Option (List ℕ)
from_utf8 = utf8_chars 0 (record { left = 0; bits = 0; lowest = 0x80; highest = 0xBF })

-- `from_utf8(..).unwrap_or(..)`
abbrev pub or_text : Option (List ℕ) → List ℕ → List ℕ
or_text none other = other
or_text (some text) other = text

abbrev pub text_or : List ℕ → List ℕ → List ℕ
text_or bytes other = or_text (from_utf8 bytes) other
