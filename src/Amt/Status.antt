-- ===== src/Amt/Status.antt =====
-- What `get_control_mode` of src/amt.rs makes of an answer.
use amt_uefi_boot_app.Outcome.{ok, err, amt_status}
use amt_uefi_boot_app.Amt.Mei.{pthi_call, check_status, Mei, make_header}
use amt_uefi_boot_app.Amt.Getters.{get_control_mode}
use amt_uefi_boot_app.Prelude.{
  Option, blit, ℕ, List, [], some, length, le_bytes, ◌<◌, ◌≡◌, none, ◌^◌, ◌+◌, ◌≤◌, read_le32,
  replicate, ◌++◌, drop, if◌then◌else◌, arith, ◌==◌, append_assoc, read_le32-append, sym, ap,
  length-append, ◌∙◌, ltb, append-nil, read_le32-le_bytes, false, Bool-cases, inl, inr, refl,
}

-- The bytes behind the status: the mode, or nothing in an answer of 16 bytes.
abbrev pub mode_bytes : Option ℕ → List ℕ
mode_bytes none = []
mode_bytes (some mode) = le_bytes 4 mode

abbrev pub mode_value : Option ℕ → ℕ
mode_value none = 0
mode_value (some mode) = mode

abbrev pub IsWord : Option ℕ → Type 0
IsWord none = Unit
IsWord (some mode) = mode < 2 ^ 32

read_filled :
    (header bytes : List ℕ) (i : ℕ)
    → length header ≡ i
    → length header + length bytes ≤ 20
    → read_le32 (blit (replicate 20 0) 0 (header ++ bytes)) i
      ≡ read_le32 (bytes ++ drop (length (header ++ bytes)) (replicate 20 0)) 0
unfolding blit
read_filled header bytes i h fits =
    let rest : List ℕ = drop (length (header ++ bytes)) (replicate 20 0) in
    let start : 0 + length (header ++ bytes) ≡ length (header ++ bytes) = omega arith in
    rw (start, append_assoc header bytes rest) (read_le32-append i header (bytes ++ rest) (sym h))

behind :
    (header : List ℕ) (mode : Option ℕ)
    → length header ≡ 16
    → IsWord mode
    → read_le32 (mode_bytes mode ++ drop (length (header ++ mode_bytes mode)) (replicate 20 0)) 0
      ≡ mode_value mode
behind header none h w =
    let size : length (header ++ []) ≡ 16 = ap length (append-nil header) ∙ h in
    ap (λ j. read_le32 (drop j (replicate 20 0)) 0) size
behind header (some mode) h w =
    read_le32-le_bytes mode (drop (length (header ++ le_bytes 4 mode)) (replicate 20 0)) w

length-mode_bytes : (mode : Option ℕ) → length (mode_bytes mode) ≤ 4
length-mode_bytes none = omega arith
length-mode_bytes (some mode) = omega arith

module _ (header : List ℕ) (status : ℕ) (mode : Option ℕ) (h : length header ≡ 12) where
  abbrev bytes : List ℕ
  bytes = header ++ (le_bytes 4 status ++ mode_bytes mode)

  length-bytes : length bytes ≡ 16 + length (mode_bytes mode)
  length-bytes = omega (arith, h, length-append header (le_bytes 4 status ++ mode_bytes mode))

  status_there : status < 2 ^ 32 → read_le32 (blit (replicate 20 0) 0 bytes) 12 ≡ status
  status_there w =
      read_filled header (le_bytes 4 status ++ mode_bytes mode) 12 h
        (omega (arith, h, length-mode_bytes mode))
      ∙ read_le32-le_bytes status (mode_bytes mode ++ drop (length bytes) (replicate 20 0)) w

  mode_there : IsWord mode → read_le32 (blit (replicate 20 0) 0 bytes) 16 ≡ mode_value mode
  mode_there w =
      let front : List ℕ = header ++ le_bytes 4 status in
      let size : length front ≡ 16 = omega (arith, h, length-append header (le_bytes 4 status)) in
      ap (λ ys. read_le32 (blit (replicate 20 0) 0 ys) 16)
        (sym (append_assoc header (le_bytes 4 status) (mode_bytes mode)))
      ∙ read_filled front (mode_bytes mode) 16 size (omega (arith, size, length-mode_bytes mode))
      ∙ behind front mode size w

-- An answer of the engine with a status other than 0 is the error with that status. With status 0
-- `get_control_mode` gives the mode behind it; an answer of 16 bytes, with no mode, is taken as
-- mode 0, pre-provisioning.
pub get_control_mode_lem :
    (M : Mei) (c d e : M.Ctx) (header : List ℕ) (status : ℕ) (mode : Option ℕ)
    → length header ≡ 12
    → status < 2 ^ 32
    → IsWord mode
    → M.send (make_header (replicate 12 0) 0x0400_006b 0) c ≡ (ok tt, d)
    → let bytes = header ++ (le_bytes 4 status ++ mode_bytes mode) in
      M.receive (replicate 20 0) d ≡ (ok (length bytes, blit (replicate 20 0) 0 bytes), e)
      → get_control_mode M c
        ≡ ((if status == 0 then ok (mode_value mode) else err (amt_status status)), e)
unfolding get_control_mode pthi_call check_status
get_control_mode_lem M c d e header status mode h w m sent received =
    let full : List ℕ =
      blit (replicate 20 0) 0 (header ++ (le_bytes 4 status ++ mode_bytes mode)) in
    let size = length-bytes header status mode h in
    let code = status_there header status mode h w in
    let value = mode_there header status mode h m in
    let enough : ltb (16 + length (mode_bytes mode)) 16 ≡ false = ground arith in
    rw (sent, received, size, enough, code)
      (elim (Bool-cases (status == 0)) [
        | inl z ↦ rw z (ap (λ v. (ok v, e)) value)
        | inr z ↦ rw z refl
      ])
