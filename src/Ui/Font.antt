-- ===== src/Ui/Font.antt =====
-- src/font.rs: the bitmap of each glyph, a byte for each of its 16 rows.
use amt_uefi_boot_app.Prelude.{
  ℕ, List, ◌∷◌, if◌then◌else◌, Bool, [], leb, not, ◌++◌, ◌&&◌, bit_and, get_or, ◌==◌, ◌-◌,
}

abbrev pub box_h : List ℕ
box_h = 0 ∷ 0 ∷ 0 ∷ 0 ∷ 0 ∷ 0 ∷ 0 ∷ 0xff ∷ 0xff ∷ 0 ∷ 0 ∷ 0 ∷ 0 ∷ 0 ∷ 0 ∷ 0 ∷ []

abbrev pub box_v : List ℕ
box_v =
    0x18 ∷ 0x18 ∷ 0x18 ∷ 0x18 ∷ 0x18 ∷ 0x18 ∷ 0x18 ∷ 0x18 ∷ 0x18 ∷ 0x18 ∷ 0x18 ∷ 0x18 ∷ 0x18 ∷ 0x18
    ∷ 0x18 ∷ 0x18 ∷ []

abbrev pub box_tl : List ℕ
box_tl =
    0 ∷ 0 ∷ 0 ∷ 0 ∷ 0 ∷ 0 ∷ 0 ∷ 0x1f ∷ 0x1f ∷ 0x18 ∷ 0x18 ∷ 0x18 ∷ 0x18 ∷ 0x18 ∷ 0x18 ∷ 0x18 ∷ []

abbrev pub box_tr : List ℕ
box_tr =
    0 ∷ 0 ∷ 0 ∷ 0 ∷ 0 ∷ 0 ∷ 0 ∷ 0xf8 ∷ 0xf8 ∷ 0x18 ∷ 0x18 ∷ 0x18 ∷ 0x18 ∷ 0x18 ∷ 0x18 ∷ 0x18 ∷ []

abbrev pub box_bl : List ℕ
box_bl =
    0x18 ∷ 0x18 ∷ 0x18 ∷ 0x18 ∷ 0x18 ∷ 0x18 ∷ 0x18 ∷ 0x1f ∷ 0x1f ∷ 0 ∷ 0 ∷ 0 ∷ 0 ∷ 0 ∷ 0 ∷ 0 ∷ []

abbrev pub box_br : List ℕ
box_br =
    0x18 ∷ 0x18 ∷ 0x18 ∷ 0x18 ∷ 0x18 ∷ 0x18 ∷ 0x18 ∷ 0xf8 ∷ 0xf8 ∷ 0 ∷ 0 ∷ 0 ∷ 0 ∷ 0 ∷ 0 ∷ 0 ∷ []

abbrev pub box_lt : List ℕ
box_lt =
    0x18 ∷ 0x18 ∷ 0x18 ∷ 0x18 ∷ 0x18 ∷ 0x18 ∷ 0x18 ∷ 0x1f ∷ 0x1f ∷ 0x18 ∷ 0x18 ∷ 0x18 ∷ 0x18 ∷ 0x18
    ∷ 0x18 ∷ 0x18 ∷ []

abbrev pub box_rt : List ℕ
box_rt =
    0x18 ∷ 0x18 ∷ 0x18 ∷ 0x18 ∷ 0x18 ∷ 0x18 ∷ 0x18 ∷ 0xf8 ∷ 0xf8 ∷ 0x18 ∷ 0x18 ∷ 0x18 ∷ 0x18 ∷ 0x18
    ∷ 0x18 ∷ 0x18 ∷ []

-- The printable characters from the blank on.
unfoldable pub ascii : List (List ℕ)
ascii =
    (0 ∷ 0 ∷ 0 ∷ 0 ∷ 0 ∷ 0 ∷ 0 ∷ 0 ∷ 0 ∷ 0 ∷ 0 ∷ 0 ∷ 0 ∷ 0 ∷ 0 ∷ 0 ∷ [])
    ∷ (0 ∷ 0 ∷ 0x18 ∷ 0x3c ∷ 0x3c ∷ 0x3c ∷ 0x18 ∷ 0x18 ∷ 0x18 ∷ 0 ∷ 0x18 ∷ 0x18 ∷ 0 ∷ 0 ∷ 0 ∷ 0
        ∷ [])
    ∷ (0 ∷ 0x66 ∷ 0x66 ∷ 0x66 ∷ 0x24 ∷ 0 ∷ 0 ∷ 0 ∷ 0 ∷ 0 ∷ 0 ∷ 0 ∷ 0 ∷ 0 ∷ 0 ∷ 0 ∷ [])
    ∷ (0 ∷ 0 ∷ 0 ∷ 0x6c ∷ 0x6c ∷ 0xfe ∷ 0x6c ∷ 0xfe ∷ 0x6c ∷ 0x6c ∷ 0 ∷ 0 ∷ 0 ∷ 0 ∷ 0 ∷ 0 ∷ [])
    ∷ (0x18 ∷ 0x18 ∷ 0x7c ∷ 0xc6 ∷ 0xc2 ∷ 0xc0 ∷ 0x7c ∷ 6 ∷ 0x86 ∷ 0xc6 ∷ 0x7c ∷ 0x18 ∷ 0x18 ∷ 0 ∷ 0
        ∷ 0 ∷ [])
    ∷ (0 ∷ 0 ∷ 0 ∷ 0 ∷ 0xc2 ∷ 0xc6 ∷ 0x0c ∷ 0x18 ∷ 0x30 ∷ 0x60 ∷ 0xc6 ∷ 0x86 ∷ 0 ∷ 0 ∷ 0 ∷ 0 ∷ [])
    ∷ (0 ∷ 0 ∷ 0x38 ∷ 0x6c ∷ 0x6c ∷ 0x38 ∷ 0x76 ∷ 0xdc ∷ 0xcc ∷ 0xcc ∷ 0xcc ∷ 0x76 ∷ 0 ∷ 0 ∷ 0 ∷ 0
        ∷ [])
    ∷ (0 ∷ 0x30 ∷ 0x30 ∷ 0x30 ∷ 0x60 ∷ 0 ∷ 0 ∷ 0 ∷ 0 ∷ 0 ∷ 0 ∷ 0 ∷ 0 ∷ 0 ∷ 0 ∷ 0 ∷ [])
    ∷ (0 ∷ 0 ∷ 0x0c ∷ 0x18 ∷ 0x30 ∷ 0x30 ∷ 0x30 ∷ 0x30 ∷ 0x30 ∷ 0x30 ∷ 0x18 ∷ 0x0c ∷ 0 ∷ 0 ∷ 0 ∷ 0
        ∷ [])
    ∷ (0 ∷ 0 ∷ 0x30 ∷ 0x18 ∷ 0x0c ∷ 0x0c ∷ 0x0c ∷ 0x0c ∷ 0x0c ∷ 0x0c ∷ 0x18 ∷ 0x30 ∷ 0 ∷ 0 ∷ 0 ∷ 0
        ∷ [])
    ∷ (0 ∷ 0 ∷ 0 ∷ 0 ∷ 0 ∷ 0x66 ∷ 0x3c ∷ 0xff ∷ 0x3c ∷ 0x66 ∷ 0 ∷ 0 ∷ 0 ∷ 0 ∷ 0 ∷ 0 ∷ [])
    ∷ (0 ∷ 0 ∷ 0 ∷ 0 ∷ 0 ∷ 0x18 ∷ 0x18 ∷ 0x7e ∷ 0x18 ∷ 0x18 ∷ 0 ∷ 0 ∷ 0 ∷ 0 ∷ 0 ∷ 0 ∷ [])
    ∷ (0 ∷ 0 ∷ 0 ∷ 0 ∷ 0 ∷ 0 ∷ 0 ∷ 0 ∷ 0 ∷ 0x18 ∷ 0x18 ∷ 0x18 ∷ 0x30 ∷ 0 ∷ 0 ∷ 0 ∷ [])
    ∷ (0 ∷ 0 ∷ 0 ∷ 0 ∷ 0 ∷ 0 ∷ 0 ∷ 0xfe ∷ 0 ∷ 0 ∷ 0 ∷ 0 ∷ 0 ∷ 0 ∷ 0 ∷ 0 ∷ [])
    ∷ (0 ∷ 0 ∷ 0 ∷ 0 ∷ 0 ∷ 0 ∷ 0 ∷ 0 ∷ 0 ∷ 0 ∷ 0x18 ∷ 0x18 ∷ 0 ∷ 0 ∷ 0 ∷ 0 ∷ [])
    ∷ (0 ∷ 0 ∷ 0 ∷ 0 ∷ 2 ∷ 6 ∷ 0x0c ∷ 0x18 ∷ 0x30 ∷ 0x60 ∷ 0xc0 ∷ 0x80 ∷ 0 ∷ 0 ∷ 0 ∷ 0 ∷ [])
    ∷ (0 ∷ 0 ∷ 0x7c ∷ 0xc6 ∷ 0xc6 ∷ 0xce ∷ 0xde ∷ 0xf6 ∷ 0xe6 ∷ 0xc6 ∷ 0xc6 ∷ 0x7c ∷ 0 ∷ 0 ∷ 0 ∷ 0
        ∷ [])
    ∷ (0 ∷ 0 ∷ 0x18 ∷ 0x38 ∷ 0x78 ∷ 0x18 ∷ 0x18 ∷ 0x18 ∷ 0x18 ∷ 0x18 ∷ 0x18 ∷ 0x7e ∷ 0 ∷ 0 ∷ 0 ∷ 0
        ∷ [])
    ∷ (0 ∷ 0 ∷ 0x7c ∷ 0xc6 ∷ 6 ∷ 0x0c ∷ 0x18 ∷ 0x30 ∷ 0x60 ∷ 0xc0 ∷ 0xc6 ∷ 0xfe ∷ 0 ∷ 0 ∷ 0 ∷ 0
        ∷ [])
    ∷ (0 ∷ 0 ∷ 0x7c ∷ 0xc6 ∷ 6 ∷ 6 ∷ 0x3c ∷ 6 ∷ 6 ∷ 6 ∷ 0xc6 ∷ 0x7c ∷ 0 ∷ 0 ∷ 0 ∷ 0 ∷ [])
    ∷ (0 ∷ 0 ∷ 0x0c ∷ 0x1c ∷ 0x3c ∷ 0x6c ∷ 0xcc ∷ 0xfe ∷ 0x0c ∷ 0x0c ∷ 0x0c ∷ 0x1e ∷ 0 ∷ 0 ∷ 0 ∷ 0
        ∷ [])
    ∷ (0 ∷ 0 ∷ 0xfe ∷ 0xc0 ∷ 0xc0 ∷ 0xc0 ∷ 0xfc ∷ 6 ∷ 6 ∷ 6 ∷ 0xc6 ∷ 0x7c ∷ 0 ∷ 0 ∷ 0 ∷ 0 ∷ [])
    ∷ (0 ∷ 0 ∷ 0x38 ∷ 0x60 ∷ 0xc0 ∷ 0xc0 ∷ 0xfc ∷ 0xc6 ∷ 0xc6 ∷ 0xc6 ∷ 0xc6 ∷ 0x7c ∷ 0 ∷ 0 ∷ 0 ∷ 0
        ∷ [])
    ∷ (0 ∷ 0 ∷ 0xfe ∷ 0xc6 ∷ 6 ∷ 6 ∷ 0x0c ∷ 0x18 ∷ 0x30 ∷ 0x30 ∷ 0x30 ∷ 0x30 ∷ 0 ∷ 0 ∷ 0 ∷ 0 ∷ [])
    ∷ (0 ∷ 0 ∷ 0x7c ∷ 0xc6 ∷ 0xc6 ∷ 0xc6 ∷ 0x7c ∷ 0xc6 ∷ 0xc6 ∷ 0xc6 ∷ 0xc6 ∷ 0x7c ∷ 0 ∷ 0 ∷ 0 ∷ 0
        ∷ [])
    ∷ (0 ∷ 0 ∷ 0x7c ∷ 0xc6 ∷ 0xc6 ∷ 0xc6 ∷ 0x7e ∷ 6 ∷ 6 ∷ 6 ∷ 0x0c ∷ 0x78 ∷ 0 ∷ 0 ∷ 0 ∷ 0 ∷ [])
    ∷ (0 ∷ 0 ∷ 0 ∷ 0 ∷ 0x18 ∷ 0x18 ∷ 0 ∷ 0 ∷ 0 ∷ 0x18 ∷ 0x18 ∷ 0 ∷ 0 ∷ 0 ∷ 0 ∷ 0 ∷ [])
    ∷ (0 ∷ 0 ∷ 0 ∷ 0 ∷ 0x18 ∷ 0x18 ∷ 0 ∷ 0 ∷ 0 ∷ 0x18 ∷ 0x18 ∷ 0x30 ∷ 0 ∷ 0 ∷ 0 ∷ 0 ∷ [])
    ∷ (0 ∷ 0 ∷ 0 ∷ 6 ∷ 0x0c ∷ 0x18 ∷ 0x30 ∷ 0x60 ∷ 0x30 ∷ 0x18 ∷ 0x0c ∷ 6 ∷ 0 ∷ 0 ∷ 0 ∷ 0 ∷ [])
    ∷ (0 ∷ 0 ∷ 0 ∷ 0 ∷ 0 ∷ 0x7e ∷ 0 ∷ 0 ∷ 0x7e ∷ 0 ∷ 0 ∷ 0 ∷ 0 ∷ 0 ∷ 0 ∷ 0 ∷ [])
    ∷ (0 ∷ 0 ∷ 0 ∷ 0x60 ∷ 0x30 ∷ 0x18 ∷ 0x0c ∷ 6 ∷ 0x0c ∷ 0x18 ∷ 0x30 ∷ 0x60 ∷ 0 ∷ 0 ∷ 0 ∷ 0 ∷ [])
    ∷ (0 ∷ 0 ∷ 0x7c ∷ 0xc6 ∷ 0xc6 ∷ 0x0c ∷ 0x18 ∷ 0x18 ∷ 0x18 ∷ 0 ∷ 0x18 ∷ 0x18 ∷ 0 ∷ 0 ∷ 0 ∷ 0
        ∷ [])
    ∷ (0 ∷ 0 ∷ 0 ∷ 0x7c ∷ 0xc6 ∷ 0xc6 ∷ 0xde ∷ 0xde ∷ 0xde ∷ 0xdc ∷ 0xc0 ∷ 0x7c ∷ 0 ∷ 0 ∷ 0 ∷ 0
        ∷ [])
    ∷ (0 ∷ 0 ∷ 0x10 ∷ 0x38 ∷ 0x6c ∷ 0xc6 ∷ 0xc6 ∷ 0xfe ∷ 0xc6 ∷ 0xc6 ∷ 0xc6 ∷ 0xc6 ∷ 0 ∷ 0 ∷ 0 ∷ 0
        ∷ [])
    ∷ (0 ∷ 0 ∷ 0xfc ∷ 0x66 ∷ 0x66 ∷ 0x66 ∷ 0x7c ∷ 0x66 ∷ 0x66 ∷ 0x66 ∷ 0x66 ∷ 0xfc ∷ 0 ∷ 0 ∷ 0 ∷ 0
        ∷ [])
    ∷ (0 ∷ 0 ∷ 0x3c ∷ 0x66 ∷ 0xc2 ∷ 0xc0 ∷ 0xc0 ∷ 0xc0 ∷ 0xc0 ∷ 0xc2 ∷ 0x66 ∷ 0x3c ∷ 0 ∷ 0 ∷ 0 ∷ 0
        ∷ [])
    ∷ (0 ∷ 0 ∷ 0xf8 ∷ 0x6c ∷ 0x66 ∷ 0x66 ∷ 0x66 ∷ 0x66 ∷ 0x66 ∷ 0x66 ∷ 0x6c ∷ 0xf8 ∷ 0 ∷ 0 ∷ 0 ∷ 0
        ∷ [])
    ∷ (0 ∷ 0 ∷ 0xfe ∷ 0x66 ∷ 0x62 ∷ 0x68 ∷ 0x78 ∷ 0x68 ∷ 0x60 ∷ 0x62 ∷ 0x66 ∷ 0xfe ∷ 0 ∷ 0 ∷ 0 ∷ 0
        ∷ [])
    ∷ (0 ∷ 0 ∷ 0xfe ∷ 0x66 ∷ 0x62 ∷ 0x68 ∷ 0x78 ∷ 0x68 ∷ 0x60 ∷ 0x60 ∷ 0x60 ∷ 0xf0 ∷ 0 ∷ 0 ∷ 0 ∷ 0
        ∷ [])
    ∷ (0 ∷ 0 ∷ 0x3c ∷ 0x66 ∷ 0xc2 ∷ 0xc0 ∷ 0xc0 ∷ 0xde ∷ 0xc6 ∷ 0xc6 ∷ 0x66 ∷ 0x3a ∷ 0 ∷ 0 ∷ 0 ∷ 0
        ∷ [])
    ∷ (0 ∷ 0 ∷ 0xc6 ∷ 0xc6 ∷ 0xc6 ∷ 0xc6 ∷ 0xfe ∷ 0xc6 ∷ 0xc6 ∷ 0xc6 ∷ 0xc6 ∷ 0xc6 ∷ 0 ∷ 0 ∷ 0 ∷ 0
        ∷ [])
    ∷ (0 ∷ 0 ∷ 0x3c ∷ 0x18 ∷ 0x18 ∷ 0x18 ∷ 0x18 ∷ 0x18 ∷ 0x18 ∷ 0x18 ∷ 0x18 ∷ 0x3c ∷ 0 ∷ 0 ∷ 0 ∷ 0
        ∷ [])
    ∷ (0 ∷ 0 ∷ 0x1e ∷ 0x0c ∷ 0x0c ∷ 0x0c ∷ 0x0c ∷ 0x0c ∷ 0xcc ∷ 0xcc ∷ 0xcc ∷ 0x78 ∷ 0 ∷ 0 ∷ 0 ∷ 0
        ∷ [])
    ∷ (0 ∷ 0 ∷ 0xe6 ∷ 0x66 ∷ 0x66 ∷ 0x6c ∷ 0x78 ∷ 0x78 ∷ 0x6c ∷ 0x66 ∷ 0x66 ∷ 0xe6 ∷ 0 ∷ 0 ∷ 0 ∷ 0
        ∷ [])
    ∷ (0 ∷ 0 ∷ 0xf0 ∷ 0x60 ∷ 0x60 ∷ 0x60 ∷ 0x60 ∷ 0x60 ∷ 0x60 ∷ 0x62 ∷ 0x66 ∷ 0xfe ∷ 0 ∷ 0 ∷ 0 ∷ 0
        ∷ [])
    ∷ (0 ∷ 0 ∷ 0xc6 ∷ 0xee ∷ 0xfe ∷ 0xfe ∷ 0xd6 ∷ 0xc6 ∷ 0xc6 ∷ 0xc6 ∷ 0xc6 ∷ 0xc6 ∷ 0 ∷ 0 ∷ 0 ∷ 0
        ∷ [])
    ∷ (0 ∷ 0 ∷ 0xc6 ∷ 0xe6 ∷ 0xf6 ∷ 0xfe ∷ 0xde ∷ 0xce ∷ 0xc6 ∷ 0xc6 ∷ 0xc6 ∷ 0xc6 ∷ 0 ∷ 0 ∷ 0 ∷ 0
        ∷ [])
    ∷ (0 ∷ 0 ∷ 0x7c ∷ 0xc6 ∷ 0xc6 ∷ 0xc6 ∷ 0xc6 ∷ 0xc6 ∷ 0xc6 ∷ 0xc6 ∷ 0xc6 ∷ 0x7c ∷ 0 ∷ 0 ∷ 0 ∷ 0
        ∷ [])
    ∷ (0 ∷ 0 ∷ 0xfc ∷ 0x66 ∷ 0x66 ∷ 0x66 ∷ 0x7c ∷ 0x60 ∷ 0x60 ∷ 0x60 ∷ 0x60 ∷ 0xf0 ∷ 0 ∷ 0 ∷ 0 ∷ 0
        ∷ [])
    ∷ (0 ∷ 0 ∷ 0x7c ∷ 0xc6 ∷ 0xc6 ∷ 0xc6 ∷ 0xc6 ∷ 0xc6 ∷ 0xc6 ∷ 0xd6 ∷ 0xde ∷ 0x7c ∷ 0x0c ∷ 0x0e ∷ 0
        ∷ 0 ∷ [])
    ∷ (0 ∷ 0 ∷ 0xfc ∷ 0x66 ∷ 0x66 ∷ 0x66 ∷ 0x7c ∷ 0x6c ∷ 0x66 ∷ 0x66 ∷ 0x66 ∷ 0xe6 ∷ 0 ∷ 0 ∷ 0 ∷ 0
        ∷ [])
    ∷ (0 ∷ 0 ∷ 0x7c ∷ 0xc6 ∷ 0xc6 ∷ 0x60 ∷ 0x38 ∷ 0x0c ∷ 6 ∷ 0xc6 ∷ 0xc6 ∷ 0x7c ∷ 0 ∷ 0 ∷ 0 ∷ 0
        ∷ [])
    ∷ (0 ∷ 0 ∷ 0xff ∷ 0xdb ∷ 0x99 ∷ 0x18 ∷ 0x18 ∷ 0x18 ∷ 0x18 ∷ 0x18 ∷ 0x18 ∷ 0x3c ∷ 0 ∷ 0 ∷ 0 ∷ 0
        ∷ [])
    ∷ (0 ∷ 0 ∷ 0xc6 ∷ 0xc6 ∷ 0xc6 ∷ 0xc6 ∷ 0xc6 ∷ 0xc6 ∷ 0xc6 ∷ 0xc6 ∷ 0xc6 ∷ 0x7c ∷ 0 ∷ 0 ∷ 0 ∷ 0
        ∷ [])
    ∷ (0 ∷ 0 ∷ 0xc6 ∷ 0xc6 ∷ 0xc6 ∷ 0xc6 ∷ 0xc6 ∷ 0xc6 ∷ 0xc6 ∷ 0x6c ∷ 0x38 ∷ 0x10 ∷ 0 ∷ 0 ∷ 0 ∷ 0
        ∷ [])
    ∷ (0 ∷ 0 ∷ 0xc6 ∷ 0xc6 ∷ 0xc6 ∷ 0xc6 ∷ 0xd6 ∷ 0xd6 ∷ 0xd6 ∷ 0xfe ∷ 0xee ∷ 0x6c ∷ 0 ∷ 0 ∷ 0 ∷ 0
        ∷ [])
    ∷ (0 ∷ 0 ∷ 0xc6 ∷ 0xc6 ∷ 0x6c ∷ 0x7c ∷ 0x38 ∷ 0x38 ∷ 0x7c ∷ 0x6c ∷ 0xc6 ∷ 0xc6 ∷ 0 ∷ 0 ∷ 0 ∷ 0
        ∷ [])
    ∷ (0 ∷ 0 ∷ 0x66 ∷ 0x66 ∷ 0x66 ∷ 0x66 ∷ 0x3c ∷ 0x18 ∷ 0x18 ∷ 0x18 ∷ 0x18 ∷ 0x3c ∷ 0 ∷ 0 ∷ 0 ∷ 0
        ∷ [])
    ∷ (0 ∷ 0 ∷ 0xfe ∷ 0xc6 ∷ 0x86 ∷ 0x0c ∷ 0x18 ∷ 0x30 ∷ 0x60 ∷ 0xc2 ∷ 0xc6 ∷ 0xfe ∷ 0 ∷ 0 ∷ 0 ∷ 0
        ∷ [])
    ∷ (0 ∷ 0 ∷ 0x3c ∷ 0x30 ∷ 0x30 ∷ 0x30 ∷ 0x30 ∷ 0x30 ∷ 0x30 ∷ 0x30 ∷ 0x30 ∷ 0x3c ∷ 0 ∷ 0 ∷ 0 ∷ 0
        ∷ [])
    ∷ (0 ∷ 0 ∷ 0 ∷ 0x80 ∷ 0xc0 ∷ 0xe0 ∷ 0x70 ∷ 0x38 ∷ 0x1c ∷ 0x0e ∷ 6 ∷ 2 ∷ 0 ∷ 0 ∷ 0 ∷ 0 ∷ [])
    ∷ (0 ∷ 0 ∷ 0x3c ∷ 0x0c ∷ 0x0c ∷ 0x0c ∷ 0x0c ∷ 0x0c ∷ 0x0c ∷ 0x0c ∷ 0x0c ∷ 0x3c ∷ 0 ∷ 0 ∷ 0 ∷ 0
        ∷ [])
    ∷ (0x10 ∷ 0x38 ∷ 0x6c ∷ 0xc6 ∷ 0 ∷ 0 ∷ 0 ∷ 0 ∷ 0 ∷ 0 ∷ 0 ∷ 0 ∷ 0 ∷ 0 ∷ 0 ∷ 0 ∷ [])
    ∷ (0 ∷ 0 ∷ 0 ∷ 0 ∷ 0 ∷ 0 ∷ 0 ∷ 0 ∷ 0 ∷ 0 ∷ 0 ∷ 0 ∷ 0 ∷ 0xff ∷ 0 ∷ 0 ∷ [])
    ∷ (0x30 ∷ 0x30 ∷ 0x18 ∷ 0 ∷ 0 ∷ 0 ∷ 0 ∷ 0 ∷ 0 ∷ 0 ∷ 0 ∷ 0 ∷ 0 ∷ 0 ∷ 0 ∷ 0 ∷ [])
    ∷ (0 ∷ 0 ∷ 0 ∷ 0 ∷ 0 ∷ 0x78 ∷ 0x0c ∷ 0x7c ∷ 0xcc ∷ 0xcc ∷ 0xcc ∷ 0x76 ∷ 0 ∷ 0 ∷ 0 ∷ 0 ∷ [])
    ∷ (0 ∷ 0 ∷ 0xe0 ∷ 0x60 ∷ 0x60 ∷ 0x78 ∷ 0x6c ∷ 0x66 ∷ 0x66 ∷ 0x66 ∷ 0x66 ∷ 0x7c ∷ 0 ∷ 0 ∷ 0 ∷ 0
        ∷ [])
    ∷ (0 ∷ 0 ∷ 0 ∷ 0 ∷ 0 ∷ 0x7c ∷ 0xc6 ∷ 0xc0 ∷ 0xc0 ∷ 0xc0 ∷ 0xc6 ∷ 0x7c ∷ 0 ∷ 0 ∷ 0 ∷ 0 ∷ [])
    ∷ (0 ∷ 0 ∷ 0x1c ∷ 0x0c ∷ 0x0c ∷ 0x3c ∷ 0x6c ∷ 0xcc ∷ 0xcc ∷ 0xcc ∷ 0xcc ∷ 0x76 ∷ 0 ∷ 0 ∷ 0 ∷ 0
        ∷ [])
    ∷ (0 ∷ 0 ∷ 0 ∷ 0 ∷ 0 ∷ 0x7c ∷ 0xc6 ∷ 0xfe ∷ 0xc0 ∷ 0xc0 ∷ 0xc6 ∷ 0x7c ∷ 0 ∷ 0 ∷ 0 ∷ 0 ∷ [])
    ∷ (0 ∷ 0 ∷ 0x38 ∷ 0x6c ∷ 0x64 ∷ 0x60 ∷ 0xf0 ∷ 0x60 ∷ 0x60 ∷ 0x60 ∷ 0x60 ∷ 0xf0 ∷ 0 ∷ 0 ∷ 0 ∷ 0
        ∷ [])
    ∷ (0 ∷ 0 ∷ 0 ∷ 0 ∷ 0 ∷ 0x76 ∷ 0xcc ∷ 0xcc ∷ 0xcc ∷ 0xcc ∷ 0xcc ∷ 0x7c ∷ 0x0c ∷ 0xcc ∷ 0x78 ∷ 0
        ∷ [])
    ∷ (0 ∷ 0 ∷ 0xe0 ∷ 0x60 ∷ 0x60 ∷ 0x6c ∷ 0x76 ∷ 0x66 ∷ 0x66 ∷ 0x66 ∷ 0x66 ∷ 0xe6 ∷ 0 ∷ 0 ∷ 0 ∷ 0
        ∷ [])
    ∷ (0 ∷ 0 ∷ 0x18 ∷ 0x18 ∷ 0 ∷ 0x38 ∷ 0x18 ∷ 0x18 ∷ 0x18 ∷ 0x18 ∷ 0x18 ∷ 0x3c ∷ 0 ∷ 0 ∷ 0 ∷ 0
        ∷ [])
    ∷ (0 ∷ 0 ∷ 6 ∷ 6 ∷ 0 ∷ 0x0e ∷ 6 ∷ 6 ∷ 6 ∷ 6 ∷ 6 ∷ 6 ∷ 0x66 ∷ 0x66 ∷ 0x3c ∷ 0 ∷ [])
    ∷ (0 ∷ 0 ∷ 0xe0 ∷ 0x60 ∷ 0x60 ∷ 0x66 ∷ 0x6c ∷ 0x78 ∷ 0x78 ∷ 0x6c ∷ 0x66 ∷ 0xe6 ∷ 0 ∷ 0 ∷ 0 ∷ 0
        ∷ [])
    ∷ (0 ∷ 0 ∷ 0x38 ∷ 0x18 ∷ 0x18 ∷ 0x18 ∷ 0x18 ∷ 0x18 ∷ 0x18 ∷ 0x18 ∷ 0x18 ∷ 0x3c ∷ 0 ∷ 0 ∷ 0 ∷ 0
        ∷ [])
    ∷ (0 ∷ 0 ∷ 0 ∷ 0 ∷ 0 ∷ 0xec ∷ 0xfe ∷ 0xd6 ∷ 0xd6 ∷ 0xd6 ∷ 0xd6 ∷ 0xc6 ∷ 0 ∷ 0 ∷ 0 ∷ 0 ∷ [])
    ∷ (0 ∷ 0 ∷ 0 ∷ 0 ∷ 0 ∷ 0xdc ∷ 0x66 ∷ 0x66 ∷ 0x66 ∷ 0x66 ∷ 0x66 ∷ 0x66 ∷ 0 ∷ 0 ∷ 0 ∷ 0 ∷ [])
    ∷ (0 ∷ 0 ∷ 0 ∷ 0 ∷ 0 ∷ 0x7c ∷ 0xc6 ∷ 0xc6 ∷ 0xc6 ∷ 0xc6 ∷ 0xc6 ∷ 0x7c ∷ 0 ∷ 0 ∷ 0 ∷ 0 ∷ [])
    ∷ (0 ∷ 0 ∷ 0 ∷ 0 ∷ 0 ∷ 0xdc ∷ 0x66 ∷ 0x66 ∷ 0x66 ∷ 0x66 ∷ 0x66 ∷ 0x7c ∷ 0x60 ∷ 0x60 ∷ 0xf0 ∷ 0
        ∷ [])
    ∷ (0 ∷ 0 ∷ 0 ∷ 0 ∷ 0 ∷ 0x76 ∷ 0xcc ∷ 0xcc ∷ 0xcc ∷ 0xcc ∷ 0xcc ∷ 0x7c ∷ 0x0c ∷ 0x0c ∷ 0x1e ∷ 0
        ∷ [])
    ∷ (0 ∷ 0 ∷ 0 ∷ 0 ∷ 0 ∷ 0xdc ∷ 0x76 ∷ 0x66 ∷ 0x60 ∷ 0x60 ∷ 0x60 ∷ 0xf0 ∷ 0 ∷ 0 ∷ 0 ∷ 0 ∷ [])
    ∷ (0 ∷ 0 ∷ 0 ∷ 0 ∷ 0 ∷ 0x7c ∷ 0xc6 ∷ 0x60 ∷ 0x38 ∷ 0x0c ∷ 0xc6 ∷ 0x7c ∷ 0 ∷ 0 ∷ 0 ∷ 0 ∷ [])
    ∷ (0 ∷ 0 ∷ 0x10 ∷ 0x30 ∷ 0x30 ∷ 0xfc ∷ 0x30 ∷ 0x30 ∷ 0x30 ∷ 0x30 ∷ 0x36 ∷ 0x1c ∷ 0 ∷ 0 ∷ 0 ∷ 0
        ∷ [])
    ∷ (0 ∷ 0 ∷ 0 ∷ 0 ∷ 0 ∷ 0xcc ∷ 0xcc ∷ 0xcc ∷ 0xcc ∷ 0xcc ∷ 0xcc ∷ 0x76 ∷ 0 ∷ 0 ∷ 0 ∷ 0 ∷ [])
    ∷ (0 ∷ 0 ∷ 0 ∷ 0 ∷ 0 ∷ 0x66 ∷ 0x66 ∷ 0x66 ∷ 0x66 ∷ 0x66 ∷ 0x3c ∷ 0x18 ∷ 0 ∷ 0 ∷ 0 ∷ 0 ∷ [])
    ∷ (0 ∷ 0 ∷ 0 ∷ 0 ∷ 0 ∷ 0xc6 ∷ 0xc6 ∷ 0xd6 ∷ 0xd6 ∷ 0xd6 ∷ 0xfe ∷ 0x6c ∷ 0 ∷ 0 ∷ 0 ∷ 0 ∷ [])
    ∷ (0 ∷ 0 ∷ 0 ∷ 0 ∷ 0 ∷ 0xc6 ∷ 0x6c ∷ 0x38 ∷ 0x38 ∷ 0x38 ∷ 0x6c ∷ 0xc6 ∷ 0 ∷ 0 ∷ 0 ∷ 0 ∷ [])
    ∷ (0 ∷ 0 ∷ 0 ∷ 0 ∷ 0 ∷ 0xc6 ∷ 0xc6 ∷ 0xc6 ∷ 0xc6 ∷ 0xc6 ∷ 0xc6 ∷ 0x7e ∷ 6 ∷ 0x0c ∷ 0xf8 ∷ 0
        ∷ [])
    ∷ (0 ∷ 0 ∷ 0 ∷ 0 ∷ 0 ∷ 0xfe ∷ 0xcc ∷ 0x18 ∷ 0x30 ∷ 0x60 ∷ 0xc6 ∷ 0xfe ∷ 0 ∷ 0 ∷ 0 ∷ 0 ∷ [])
    ∷ (0 ∷ 0 ∷ 0x0e ∷ 0x18 ∷ 0x18 ∷ 0x18 ∷ 0x70 ∷ 0x18 ∷ 0x18 ∷ 0x18 ∷ 0x18 ∷ 0x0e ∷ 0 ∷ 0 ∷ 0 ∷ 0
        ∷ [])
    ∷ (0 ∷ 0 ∷ 0x18 ∷ 0x18 ∷ 0x18 ∷ 0x18 ∷ 0 ∷ 0x18 ∷ 0x18 ∷ 0x18 ∷ 0x18 ∷ 0x18 ∷ 0 ∷ 0 ∷ 0 ∷ 0
        ∷ [])
    ∷ (0 ∷ 0 ∷ 0x70 ∷ 0x18 ∷ 0x18 ∷ 0x18 ∷ 0x0e ∷ 0x18 ∷ 0x18 ∷ 0x18 ∷ 0x18 ∷ 0x70 ∷ 0 ∷ 0 ∷ 0 ∷ 0
        ∷ [])
    ∷ (0 ∷ 0 ∷ 0x76 ∷ 0xdc ∷ 0 ∷ 0 ∷ 0 ∷ 0 ∷ 0 ∷ 0 ∷ 0 ∷ 0 ∷ 0 ∷ 0 ∷ 0 ∷ 0 ∷ [])
    ∷ []

-- The first entry, a blank, for any other character.
unfoldable pub glyph : ℕ → List ℕ
glyph ch =
    if leb 0x20 ch && leb ch 0x7E
    then get_or ascii (ch - 0x20) []
    else if ch == 0x2550
    then box_h
    else if ch == 0x2551
    then box_v
    else if ch == 0x2554
    then box_tl
    else if ch == 0x2557
    then box_tr
    else if ch == 0x255A
    then box_bl
    else if ch == 0x255D
    then box_br
    else if ch == 0x2560
    then box_lt
    else if ch == 0x2563
    then box_rt
    else get_or ascii 0 []

-- A row of pixels: whether each has the colour of the text, from the highest bit on. The 128 pixels
-- of the buffer are the rows one after the other.
abbrev pub pixel_row : ℕ → List Bool
pixel_row bits =
    not (bit_and bits 0x80 == 0)
    ∷ not (bit_and bits 0x40 == 0)
    ∷ not (bit_and bits 0x20 == 0)
    ∷ not (bit_and bits 0x10 == 0)
    ∷ not (bit_and bits 8 == 0)
    ∷ not (bit_and bits 4 == 0)
    ∷ not (bit_and bits 2 == 0)
    ∷ not (bit_and bits 1 == 0)
    ∷ []

abbrev pub pixel_rows : List ℕ → List Bool
pixel_rows [] = []
pixel_rows (bits ∷ rows) = pixel_row bits ++ pixel_rows rows

unfoldable pub pixels : ℕ → List Bool
pixels ch = pixel_rows (glyph ch)
