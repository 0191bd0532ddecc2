-- ===== src/Wsman/Xml.antt =====
-- `xml_extract` of src/wsman.rs. The loops run over what is left of the text: the model takes the
-- text that `xml[..xml_len]` holds, and a position is what stands behind it.
use amt_uefi_boot_app.StrUtil.{span_len, ascii_len}
use amt_uefi_boot_app.Prelude.{
  ℕ, List, Bool, Option, ◌==◌, false, leb, none, take, ◌||◌, ◌∷◌, length, drop, not, ◌&&◌, some,
  if◌then◌else◌, set, same_bytes, min, [], ◌-◌, true, blit,
}
pub mod Extract

-- A tag's name goes on to its `>` or to a blank.
abbrev pub ends_name : ℕ → Bool
ends_name c = c == b'>' || c == b' '

abbrev pub ends_tag : ℕ → Bool
ends_tag c = c == b'>'

abbrev pub ends_text : ℕ → Bool
ends_text c = c == b'<'

-- `i + 1 < xml_len && xml[i + 1] != b'/'`
abbrev pub is_opening : List ℕ → Bool
is_opening [] = false
is_opening (c ∷ xml) = not (c == b'/')

abbrev pub ends_with : List ℕ → List ℕ → Bool
ends_with name suffix =
    leb (length suffix) (length name) && same_bytes (drop (length name - length suffix) name) suffix

abbrev pub is_empty : List ℕ → Bool
is_empty [] = true
is_empty (c ∷ xml) = false

-- The text from the end of a matching name on: past the `>`, up to the next `<`.
unfoldable pub tag_value : List ℕ → Option (List ℕ)
tag_value [] = none
tag_value (c ∷ value) = some (take (span_len ends_text value) value)

-- What follows a `<`, and what the loop finds later on.
unfoldable pub open_tag : List ℕ → List ℕ → Option (List ℕ) → Option (List ℕ)
open_tag xml suffix later =
    let n = span_len ends_name xml in
    let after = drop n xml in
    if is_empty after
    then none
    else if ends_with (take n xml) suffix
    then tag_value (drop (span_len ends_tag after) after)
    else later

unfoldable pub find_tag : List ℕ → List ℕ → Option (List ℕ)
find_tag [] suffix = none
find_tag (c ∷ xml) suffix =
    let later = find_tag xml suffix in
    if c == b'<' && is_opening xml then open_tag xml suffix later else later

-- `out` is never empty.
unfoldable pub put_value : List ℕ → Option (List ℕ) → Bool × List ℕ
put_value out none = (false, set out 0 0)
put_value out (some value) =
    let val_len = min (length value) (length out - 1) in
    (true, set (blit out 0 (take val_len value)) val_len 0)

unfoldable pub xml_extract : List ℕ → List ℕ → List ℕ → Bool × List ℕ
xml_extract xml suffix out = put_value out (find_tag (take (ascii_len xml) xml) suffix)
