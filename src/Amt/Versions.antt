-- ===== src/Amt/Versions.antt =====
-- The table of code versions in src/amt.rs.
pub mod Table
use amt_uefi_boot_app.Prelude.{
  List, replicate, ℕ, Option, min, blit, ◌+◌, suc, take, none, read_le16, slice, set, read_le32,
  ◌∷◌, if◌then◌else◌, ◌==◌, ltb, length, ◌&&◌, zero, same_bytes, some, [],
}

pub record CodeVersionEntry : Type 0 where
  pub description : List ℕ
  pub desc_len : ℕ
  pub version : List ℕ
  pub ver_len : ℕ

pub record CodeVersions : Type 0 where
  pub bios_version : List ℕ
  pub entries : List CodeVersionEntry
  pub count : ℕ

abbrev pub empty_entry : CodeVersionEntry
empty_entry = record {
  description = replicate 20 0;
  desc_len = 0;
  version = replicate 20 0;
  ver_len = 0;
}

-- The search in `find`, over the first `count` entries.
unfoldable pub find_entry : List CodeVersionEntry → List ℕ → Option (List ℕ)
find_entry [] key = none
find_entry (e ∷ entries) key =
    if e.desc_len == length key && same_bytes (take e.desc_len e.description) key
    then some (take e.ver_len e.version)
    else find_entry entries key

unfoldable pub find : CodeVersions → List ℕ → Option (List ℕ)
unfolding find_entry
find cv key = find_entry (take cv.count cv.entries) key

-- A counted string of 20 bytes at `offset`, and its length there.
abbrev pub string_len : List ℕ → ℕ → ℕ
string_len bytes offset = min (read_le16 bytes offset) 20

abbrev pub string_at : List ℕ → ℕ → List ℕ
string_at bytes offset =
    blit (replicate 20 0) 0 (slice bytes (offset + 2) (offset + 2 + string_len bytes offset))

unfoldable pub read_entry : List ℕ → ℕ → CodeVersionEntry
read_entry bytes offset = record {
  description = string_at bytes offset;
  desc_len = string_len bytes offset;
  version = string_at bytes (offset + 22);
  ver_len = string_len bytes (offset + 22);
}

-- The loop over the entries from `i` on, of which `left` remain.
unfoldable pub read_entries : List ℕ → ℕ → ℕ → ℕ → CodeVersions → CodeVersions
read_entries bytes zero i offset cv = cv
read_entries bytes (suc left) i offset cv =
    let rest =
      read_entries bytes left (suc i) (offset + 44)
        (record cv { entries = set cv.entries i (read_entry bytes offset) }) in
    if ltb (length bytes) (offset + 44) then record cv { count = i } else rest

-- `get_code_versions`, from the bytes behind the header on.
unfoldable pub code_versions : List ℕ → CodeVersions
code_versions bytes =
    let empty : CodeVersions = record {
      bios_version = replicate 65 0;
      entries = replicate 20 empty_entry;
      count = 0;
    } in
    let named : CodeVersions = record empty { bios_version = take 65 bytes } in
    let count = min (read_le32 bytes 65) 20 in
    if ltb (length bytes) 65
    then empty
    else if ltb (length bytes) 69
    then named
    else read_entries bytes count 0 69 (record named { count = count })
