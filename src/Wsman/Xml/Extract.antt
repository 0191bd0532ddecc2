-- ===== src/Wsman/Xml/Extract.antt =====
-- What `xml_extract` of src/wsman.rs finds in a text of tags.
use amt_uefi_boot_app.StrUtil.Append.{take-min}
use amt_uefi_boot_app.StrUtil.Terminated.{str, ascii_len-take, str-put_text, length-put_text}
use amt_uefi_boot_app.Wsman.Xml.{
  find_tag, ends_text, ends_name, ends_with, ends_tag, open_tag, is_opening, tag_value, xml_extract,
  put_value,
}
use amt_uefi_boot_app.StrUtil.{span_len, ascii_len}
use amt_uefi_boot_app.Prelude.{
  ℕ, List, ◌∷◌, Bool, ◌++◌, true, not, ◌≡◌, ◌&&◌, get_or, length, Bool-cases, ◌==◌, [], inl, inr,
  refl, ap, suc, Option, if◌then◌else◌, drop, take-append_left, arith, ◌∙◌, take_all,
  drop-append_right, false, append_assoc, some, ◌<◌, take, ◌-◌, min, length-take, sym, set, blit,
}

-- What stands before the tag that is looked for: text, an opening tag with its attributes, its `>`
-- and the text behind it, or a closing tag with the text behind it.
pub data Item : Type 0 where
  chars : List ℕ → Item
  opens : List ℕ → ℕ → List ℕ → Item
  closes : List ℕ → Item

abbrev pub item_text : Item → List ℕ
item_text (chars t) = t
item_text (opens name c t) = b'<' ∷ (name ++ (c ∷ t))
item_text (closes t) = b'<' ∷ (b'/' ∷ t)

abbrev pub items_text : List Item → List ℕ
items_text [] = []
items_text (x ∷ items) = item_text x ++ items_text items

-- No byte ends the span.
abbrev pub runs_on : (ℕ → Bool) → List ℕ → Bool
runs_on ends [] = true
runs_on ends (c ∷ t) = not (ends c) && runs_on ends t

-- The name of an opening tag that does not match.
abbrev pub is_name : List ℕ → Bool
is_name name = not (get_or name 0 0 == b'/') && (runs_on ends_name name && runs_on ends_text name)

abbrev pub passes : List ℕ → Item → Bool
passes suffix (chars t) = runs_on ends_text t
passes suffix (opens name c t) =
    is_name name && (ends_name c && (runs_on ends_text t && not (ends_with name suffix)))
passes suffix (closes t) = runs_on ends_text t

abbrev pub all_pass : List ℕ → List Item → Bool
all_pass suffix [] = true
all_pass suffix (x ∷ items) = passes suffix x && all_pass suffix items

-- Nothing, or a blank and attributes.
abbrev pub is_attributes : List ℕ → Bool
is_attributes [] = true
is_attributes (c ∷ t) = c == b' ' && runs_on ends_tag t

span_len-append :
    (ends : ℕ → Bool) (t r : List ℕ) (c : ℕ)
    → runs_on ends t ≡ true
    → ends c ≡ true
    → span_len ends (t ++ (c ∷ r)) ≡ length t
unfolding span_len
span_len-append ends [] r c h e = rw e refl
span_len-append ends (x ∷ t) r c h e = elim (Bool-cases (ends x)) [
  | inl f ↦ absurd (ground (arith, h, f))
  | inr f ↦ rw f (ap suc (span_len-append ends t r c (ground (arith, h, f)) e))
]

find_tag-text :
    (suffix t r : List ℕ)
    → runs_on ends_text t ≡ true
    → find_tag (t ++ r) suffix ≡ find_tag r suffix
unfolding find_tag
find_tag-text suffix [] r h = refl
find_tag-text suffix (x ∷ t) r h = elim (Bool-cases (ends_text x)) [
  | inl f ↦ absurd (ground (arith, h, f))
  | inr f ↦ rw f (find_tag-text suffix t r (ground (arith, h, f)))
]

opens_cut :
    (name t r : List ℕ) (c : ℕ) (suffix : List ℕ) (later : Option (List ℕ))
    → is_name name ≡ true
    → ends_name c ≡ true
    → open_tag (name ++ (c ∷ (t ++ r))) suffix later ≡ (
        if ends_with name suffix
        then tag_value (drop (span_len ends_tag (c ∷ (t ++ r))) (c ∷ (t ++ r)))
        else later)
unfolding open_tag
opens_cut name t r c suffix later h e =
    let n = span_len-append ends_name name (t ++ r) c (ground (arith, h)) e in
    let front =
      take-append_left (length name) name (c ∷ (t ++ r)) (omega arith)
      ∙ take_all (length name) name (omega arith) in
    let back = drop-append_right (length name) 0 name (c ∷ (t ++ r)) (omega arith) in
    rw (n, front, back) refl

is_opening-append :
    (name r : List ℕ) (c : ℕ)
    → is_name name ≡ true
    → ends_name c ≡ true
    → is_opening (name ++ (c ∷ r)) ≡ true
is_opening-append [] r c h e = ground (arith, e)
is_opening-append (x ∷ name) r c h e = ground (arith, h)

passes_opens :
    (suffix name t : List ℕ) (c : ℕ)
    → passes suffix (opens name c t) ≡ true
    → (is_name name ≡ true)
      × (ends_name c ≡ true)
      × (runs_on ends_text t ≡ true)
      × (ends_with name suffix ≡ false)
passes_opens suffix name t c h =
    (ground (arith, h), ground (arith, h), ground (arith, h), ground (arith, h))

-- A tag that does not match is passed, with the text behind it.
find_tag-item :
    (suffix r : List ℕ) (x : Item)
    → passes suffix x ≡ true
    → find_tag (item_text x ++ r) suffix ≡ find_tag r suffix
unfolding find_tag
find_tag-item suffix r (chars t) h = find_tag-text suffix t r h
find_tag-item suffix r (closes t) h = find_tag-text suffix t r h
find_tag-item suffix r (opens name c t) h =
    let (named, ends, text, other) = passes_opens suffix name t c h in
    let opening = is_opening-append name (t ++ r) c named ends in
    let cut = opens_cut name t r c suffix (find_tag (name ++ (c ∷ (t ++ r))) suffix) named ends in
    let inner =
      find_tag-text suffix name (c ∷ (t ++ r)) (ground (arith, named))
      ∙ find_tag-text suffix (c ∷ t) r (ground (arith, ends, text)) in
    rw (append_assoc name (c ∷ t) r, opening, cut, other) inner

find_tag-items :
    (suffix r : List ℕ) (items : List Item)
    → all_pass suffix items ≡ true
    → find_tag (items_text items ++ r) suffix ≡ find_tag r suffix
find_tag-items suffix r [] h = refl
find_tag-items suffix r (x ∷ items) h = rw (append_assoc (item_text x) (items_text items) r) (
    find_tag-item suffix (items_text items ++ r) x (ground (arith, h))
    ∙ find_tag-items suffix r items (ground (arith, h)))

-- The tag that is looked for.
abbrev pub element_text : List ℕ → List ℕ → List ℕ → List ℕ → List ℕ
element_text name attributes value rest =
    b'<' ∷ (name ++ (attributes ++ (b'>' ∷ (value ++ (b'<' ∷ rest)))))

tag_value_lem :
    (value rest : List ℕ)
    → runs_on ends_text value ≡ true
    → tag_value (b'>' ∷ (value ++ (b'<' ∷ rest))) ≡ some value
unfolding tag_value
tag_value_lem value rest h =
    let n = span_len-append ends_text value rest b'<' h refl in
    rw n (
      ap some (
        take-append_left (length value) value (b'<' ∷ rest) (omega arith)
        ∙ take_all (length value) value (omega arith)))

-- Past the attributes of a tag that matches.
matched_lem :
    (name attributes tail suffix : List ℕ) (later : Option (List ℕ))
    → is_name name ≡ true
    → is_attributes attributes ≡ true
    → ends_with name suffix ≡ true
    → open_tag (name ++ (attributes ++ (b'>' ∷ tail))) suffix later ≡ tag_value (b'>' ∷ tail)
matched_lem name [] tail suffix later named plain same =
    opens_cut name [] tail b'>' suffix later named refl
    ∙ rw same (rw (span_len-append ends_tag [] tail b'>' refl refl) refl)
matched_lem name (c ∷ t) tail suffix later named plain same =
    let n = span_len-append ends_tag (c ∷ t) tail b'>' (ground (arith, plain)) refl in
    let back = drop-append_right (length t) 0 t (b'>' ∷ tail) (omega arith) in
    opens_cut name t (b'>' ∷ tail) c suffix later named (ground (arith, plain))
    ∙ rw (same, n) (ap tag_value back)

is_opening-element :
    (name attributes tail : List ℕ)
    → is_name name ≡ true
    → is_attributes attributes ≡ true
    → is_opening (name ++ (attributes ++ (b'>' ∷ tail))) ≡ true
is_opening-element name [] tail named plain = is_opening-append name tail b'>' named refl
is_opening-element name (c ∷ t) tail named plain =
    is_opening-append name (t ++ (b'>' ∷ tail)) c named (ground (arith, plain))

find_tag_lem :
    (items : List Item) (suffix name attributes value rest : List ℕ)
    → all_pass suffix items ≡ true
    → is_name name ≡ true
    → is_attributes attributes ≡ true
    → ends_with name suffix ≡ true
    → runs_on ends_text value ≡ true
    → find_tag (items_text items ++ element_text name attributes value rest) suffix ≡ some value
unfolding find_tag
find_tag_lem items suffix name attributes value rest pass named plain same text =
    let tail = value ++ (b'<' ∷ rest) in
    let inner = name ++ (attributes ++ (b'>' ∷ tail)) in
    let opening : is_opening inner ≡ true = is_opening-element name attributes tail named plain in
    find_tag-items suffix (element_text name attributes value rest) items pass
    ∙ rw opening (
        matched_lem name attributes tail suffix (find_tag inner suffix) named plain same
        ∙ tag_value_lem value rest text)

-- `xml_extract` finds the first element whose name ends in the suffix, whatever text, tags with
-- other names and closing tags stand before it and whatever stands behind its text, and leaves its
-- text, which holds no zero, in the caller's array, cut to one byte less than the array has. The
-- array is not empty.
pub xml_extract_lem :
    (xml out : List ℕ) (items : List Item) (suffix name attributes value rest : List ℕ)
    → str xml ≡ items_text items ++ element_text name attributes value rest
    → all_pass suffix items ≡ true
    → is_name name ≡ true
    → is_attributes attributes ≡ true
    → ends_with name suffix ≡ true
    → runs_on ends_text value ≡ true
    → ascii_len value ≡ length value
    → 0 < length out
    → let (found, filled) = xml_extract xml suffix out in
      (found ≡ true) × (str filled ≡ take (length out - 1) value) × (length filled ≡ length out)
unfolding xml_extract put_value
xml_extract_lem xml out items suffix name attributes value rest doc pass named plain same text z h =
    let n = min (length value) (length out - 1) in
    let cut = take n value in
    let size : length cut ≡ n = omega (arith, length-take n value) in
    let fits : length cut < length out = omega (arith, size) in
    let zeros : ascii_len cut ≡ length cut = ascii_len-take n value (omega (arith, z)) ∙ sym size in
    let found =
      ap (λ t. find_tag t suffix) doc
      ∙ find_tag_lem items suffix name attributes value rest pass named plain same text in
    rw (found, ap (λ k. set (blit out 0 cut) k 0) (sym size))
      (
        refl,
        str-put_text out cut fits zeros ∙ take-min (length out - 1) value,
        length-put_text out cut fits zeros,
      )
