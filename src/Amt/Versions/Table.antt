-- ===== src/Amt/Versions/Table.antt =====
-- The version table of src/amt.rs, printed and read.
use amt_uefi_boot_app.Prelude.{
  ◌∷◌, [], if◌then◌else◌, same_bytes, take-blit, some, sym, Bool-cases, append-nil, inl, set, ◌==◌,
  ltb, true, false, ==_iff, suc, inr, length-set, refl, subst, take-set_end, zero, min, read_le32,
  length, read_le32-append, read_le32-le_bytes,
}
use amt_uefi_boot_app.Amt.Versions.{
  string_len, string_at, CodeVersionEntry, read_entry, read_entries, find_entry, CodeVersions,
  code_versions, find, empty_entry,
}
use amt_uefi_boot_app.Prelude.{
  List, ℕ, le_bytes, ◌++◌, Option, length, replicate, none, ◌≤◌, ◌-◌, ◌≡◌, arith, length-append,
  length-replicate, blit, get_or-append_right, ◌+◌, drop-append_right, slice, ap₂, take, ◌∙◌, ap,
  append_assoc, take-append_left, take_all,
}
use amt_uefi_boot_app.StrUtil.Find.{same_bytes→eq}

-- A counted string in its 22 bytes.
unfoldable pub print_string : List ℕ → List ℕ
print_string s = le_bytes 2 (length s) ++ (s ++ replicate (20 - length s) 0)

abbrev pub print_entries : List (List ℕ × List ℕ) → List ℕ
print_entries [] = []
print_entries ((description, version) ∷ table) =
    print_string description ++ (print_string version ++ print_entries table)

abbrev pub print_table : List ℕ → List (List ℕ × List ℕ) → List ℕ
print_table bios table = bios ++ (le_bytes 4 (length table) ++ print_entries table)

abbrev pub AreShort : List (List ℕ × List ℕ) → Type 0
AreShort [] = Unit
AreShort ((description, version) ∷ table) =
    (length description ≤ 20) × (length version ≤ 20) × AreShort table

abbrev pub lookup : List (List ℕ × List ℕ) → List ℕ → Option (List ℕ)
lookup [] key = none
lookup ((description, version) ∷ table) key =
    if same_bytes description key then some version else lookup table key

length-print_string : (s : List ℕ) → length s ≤ 20 → length (print_string s) ≡ 22
unfolding print_string
length-print_string s h = omega (
  arith,
  length-append s (replicate (20 - length s) 0),
  length-replicate {A = ℕ} (20 - length s) 0,
)

print_string-read :
    (front s more : List ℕ) (offset : ℕ)
    → length s ≤ 20
    → offset ≡ length front
    → (string_len (front ++ (print_string s ++ more)) offset ≡ length s)
      × (string_at (front ++ (print_string s ++ more)) offset ≡ blit (replicate 20 0) 0 s)
unfolding print_string
print_string-read front s more offset h e =
    let bytes : List ℕ = front ++ (print_string s ++ more) in
    let tail : List ℕ = print_string s ++ more in
    let low = get_or-append_right offset 0 front tail 0 (omega arith) in
    let high = get_or-append_right (offset + 1) 1 front tail 0 (omega arith) in
    let len : string_len bytes offset ≡ length s = omega (arith, low, high) in
    let there = drop-append_right (offset + 2) 2 front tail (omega arith) in
    let text : slice bytes (offset + 2) (offset + 2 + string_len bytes offset) ≡ s =
      ap₂ take {x = offset + 2 + string_len bytes offset - (offset + 2)} {y = length s}
        (omega (arith, len)) there
      ∙ ap (take (length s)) (append_assoc s (replicate (20 - length s) 0) more)
      ∙ take-append_left (length s) s (replicate (20 - length s) 0 ++ more) (omega arith)
      ∙ take_all (length s) s (omega arith) in
    (len, ap (blit (replicate 20 0) 0) text)

abbrev to_entry : List ℕ × List ℕ → CodeVersionEntry
to_entry (description, version) = record {
  description = blit (replicate 20 0) 0 description;
  desc_len = length description;
  version = blit (replicate 20 0) 0 version;
  ver_len = length version;
}

abbrev to_entries : List (List ℕ × List ℕ) → List CodeVersionEntry
to_entries [] = []
to_entries (row ∷ table) = to_entry row ∷ to_entries table

read_entry-eq :
    (bytes d v : List ℕ) (offset : ℕ)
    → (string_len bytes offset ≡ length d) × (string_at bytes offset ≡ blit (replicate 20 0) 0 d)
    → (string_len bytes (offset + 22) ≡ length v)
      × (string_at bytes (offset + 22) ≡ blit (replicate 20 0) 0 v)
    → read_entry bytes offset ≡ to_entry (d, v)
unfolding read_entry
read_entry-eq bytes d v offset (a, b) (c, e) =
    λ i. record { description = b i; desc_len = a i; version = e i; ver_len = c i }

regroup : (f a b c r : List ℕ) → f ++ ((a ++ (b ++ c)) ++ r) ≡ (f ++ (a ++ b)) ++ (c ++ r)
regroup f a b c r = simp append_assoc

read_entry-print :
    (front d v more : List ℕ) (offset : ℕ)
    → length d ≤ 20
    → length v ≤ 20
    → offset ≡ length front
    → read_entry ((front ++ (print_string d ++ print_string v)) ++ more) offset ≡ to_entry (d, v)
read_entry-print front d v more offset h k e =
    let first = print_string-read front d (print_string v ++ more) offset h e in
    let size = length-append front (print_string d) in
    let at : offset + 22 ≡ length (front ++ print_string d) =
      omega (arith, size, length-print_string d h) in
    let second = print_string-read (front ++ print_string d) v more (offset + 22) k at in
    let bytes : List ℕ = (front ++ (print_string d ++ print_string v)) ++ more in
    let left : front ++ (print_string d ++ (print_string v ++ more)) ≡ bytes = simp append_assoc in
    let right : (front ++ print_string d) ++ (print_string v ++ more) ≡ bytes = simp append_assoc in
    read_entry-eq bytes d v offset
      (subst
        (λ ys.
          (string_len ys offset ≡ length d) × (string_at ys offset ≡ blit (replicate 20 0) 0 d))
        left first)
      (subst
        (λ ys.
          (string_len ys (offset + 22) ≡ length v)
          × (string_at ys (offset + 22) ≡ blit (replicate 20 0) 0 v))
        right second)

-- The loop stores the rows from place `i` on.
read_entries-print :
    (table : List (List ℕ × List ℕ)) (front rest : List ℕ) (i offset : ℕ) (cv : CodeVersions)
    → AreShort table
    → offset ≡ length front
    → i + length table ≤ length cv.entries
    → let out = read_entries (front ++ (print_entries table ++ rest)) (length table) i offset cv in
      (take (i + length table) out.entries ≡ take i cv.entries ++ to_entries table)
      × (out.count ≡ cv.count)
unfolding read_entries
read_entries-print [] front rest i offset cv h e b =
    (ap (λ j. take j cv.entries) {x = i + 0} (omega arith) ∙ sym (append-nil _), refl)
read_entries-print ((d, v) ∷ table) front rest i offset cv (h, k, short) e b =
    let more : List ℕ = print_entries table ++ rest in
    let row : List ℕ = print_string d ++ print_string v in
    let size = length-append (print_string d) (print_string v) in
    let total = length-append (front ++ row) more in
    let front_size = length-append front row in
    let ds = length-print_string d h in
    let vs = length-print_string v k in
    let cv' : CodeVersions = record cv { entries = set cv.entries i (to_entry (d, v)) } in
    let bytes : List ℕ = (front ++ row) ++ more in
    let entry = read_entry-print front d v more offset h k e in
    let enough : ltb (length bytes) (offset + 44) ≡ false =
      ground (arith, total, front_size, size, ds, vs) in
    let (stored, counted) =
      read_entries-print table (front ++ row) rest (suc i) (offset + 44) cv' short
        (omega (arith, front_size, size, ds, vs))
        (omega (arith, length-set cv.entries i (to_entry (d, v)))) in
    let run = read_entries bytes (length table) (suc i) (offset + 44) cv' in
    subst
      (λ ys.
        let out = read_entries ys (suc (length table)) i offset cv in
        (take (i + suc (length table)) out.entries
          ≡ take i cv.entries ++ (to_entry (d, v) ∷ to_entries table))
        × (out.count ≡ cv.count))
      (sym (regroup front (print_string d) (print_string v) (print_entries table) rest))
      (rw (entry, enough)
        (
          ap (λ j. take j run.entries) {x = i + suc (length table)} {y = suc i + length table}
                (omega arith)
              ∙ stored
              ∙ ap (λ xs. xs ++ to_entries table)
                  (take-set_end i cv.entries (to_entry (d, v)) (omega arith))
              ∙ append_assoc (take i cv.entries) (to_entry (d, v) ∷ []) (to_entries table),
          counted,
        ))

find_entry-to_entries :
    (table : List (List ℕ × List ℕ)) (key : List ℕ)
    → AreShort table
    → find_entry (to_entries table) key ≡ lookup table key
unfolding find_entry
find_entry-to_entries [] key h = refl
find_entry-to_entries ((d, v) ∷ table) key (h, k, short) =
    let desc = take-blit (replicate 20 0) 0 (length d) d (omega arith) (omega arith) in
    let vers = take-blit (replicate 20 0) 0 (length v) v (omega arith) (omega arith) in
    let tail = find_entry-to_entries table key short in
    elim (Bool-cases (same_bytes d key)) [
      | inl e ↦
          let len : (length d == length key) ≡ true =
            (==_iff _ _).1 (ap length (same_bytes→eq d key e)) in
          rw (desc, vers, e, len) refl
      | inr e ↦ rw (desc, vers, e, tail) (ground arith)
    ]

read_entries_bios :
    (bytes : List ℕ) (left i offset : ℕ) (cv : CodeVersions)
    → (read_entries bytes left i offset cv).bios_version ≡ cv.bios_version
unfolding read_entries
read_entries_bios bytes zero i offset cv = refl
read_entries_bios bytes (suc left) i offset cv = ground (
  arith,
  read_entries_bios bytes left (suc i) (offset + 44)
      (record cv { entries = set cv.entries i (read_entry bytes offset) }),
)

-- The table that the engine sends, of up to 20 rows of strings of up to 20 bytes, is read back: the
-- BIOS version is the one that was sent, and `find` gives for each key the version in the first row
-- with that description, and none when there is no such row, whatever follows the table.
pub code_versions-print_table :
    (bios rest key : List ℕ) (table : List (List ℕ × List ℕ))
    → length bios ≡ 65
    → length table ≤ 20
    → AreShort table
    → let cv = code_versions (print_table bios table ++ rest) in
      (cv.bios_version ≡ bios) × (find cv key ≡ lookup table key)
unfolding code_versions find
code_versions-print_table bios rest key table b n h =
    let tail : List ℕ = print_entries table ++ rest in
    let body : List ℕ = le_bytes 4 (length table) ++ tail in
    let front : List ℕ = bios ++ le_bytes 4 (length table) in
    let bytes : List ℕ = front ++ tail in
    let same : print_table bios table ++ rest ≡ bytes = simp append_assoc in
    let size = length-append front tail in
    let front_size = length-append bios (le_bytes 4 (length table)) in
    let w = append_assoc bios (le_bytes 4 (length table)) tail in
    let count : min (read_le32 bytes 65) 20 ≡ length table = omega (
      arith,
      read_le32-append 65 bios body (sym b),
      read_le32-le_bytes (length table) tail (omega arith),
      ap (λ ys. read_le32 ys 65) w,
    ) in
    let first : ltb (length bytes) 65 ≡ false = ground (arith, size, front_size, b) in
    let second : ltb (length bytes) 69 ≡ false = ground (arith, size, front_size, b) in
    let named : take 65 bytes ≡ bios =
      ap (take 65) w
      ∙ take-append_left 65 bios body (omega (arith, b))
      ∙ take_all 65 bios (omega (arith, b)) in
    let cv : CodeVersions = record {
      bios_version = bios;
      entries = replicate 20 empty_entry;
      count = length table;
    } in
    let out = read_entries bytes (length table) 0 69 cv in
    let (stored, counted) =
      read_entries-print table front rest 0 69 cv h (omega (arith, front_size, b)) (omega arith) in
    subst
      (λ ys.
        ((code_versions ys).bios_version ≡ bios) × (find (code_versions ys) key ≡ lookup table key))
      (sym same)
      (rw (first, second, count, named)
        (
          read_entries_bios bytes (length table) 0 69 cv,
          ap (λ xs. find_entry xs key)
                (ap (λ m. take m out.entries) {x = out.count} {y = 0 + length table}
                    (counted ∙ omega arith)
                  ∙ stored)
              ∙ find_entry-to_entries table key h,
        ))
