-- ===== src/Ui/Box.antt =====
-- The boxes of src/ui.rs: for each function the strings that it prints, for a margin of `m`.
use amt_uefi_boot_app.Prelude.{
  ℕ, List, ◌+◌, replicate, [], ◌++◌, ◌-◌, min, ◌∷◌, if◌then◌else◌, suc, length, ltb, ◌/◌, zero,
}
pub mod Layout
pub mod Rows
use amt_uefi_boot_app.Ui.Screen.{Console, prints, cols_of, clear, v_center}

abbrev pub box_inner : ℕ
box_inner = 60

unfoldable pub margin : Console → ℕ
margin c =
    let cols = cols_of c.gop in
    let box_total = box_inner + 2 in if ltb box_total cols then (cols - box_total) / 2 else 0

-- `print_spaces`
abbrev pub spaces : ℕ → List (List ℕ)
spaces n = replicate n (b' ' ∷ [])

-- A character for each print, up to a number of them.
abbrev pub chars : ℕ → List ℕ → List (List ℕ)
chars zero text = []
chars (suc n) [] = []
chars (suc n) (ch ∷ text) = (ch ∷ []) ∷ chars n text

-- A row from one corner to the other.
unfoldable pub border : ℕ → ℕ → ℕ → List (List ℕ)
border left right m =
    spaces m
    ++ ((left ∷ []) ∷ (replicate box_inner (0x2550 ∷ []) ++ ((right ∷ []) ∷ ((10 ∷ []) ∷ []))))

abbrev pub top_prints : ℕ → List (List ℕ)
top_prints = border 0x2554 0x2557

abbrev pub bottom_prints : ℕ → List (List ℕ)
bottom_prints = border 0x255A 0x255D

abbrev pub sep_prints : ℕ → List (List ℕ)
sep_prints = border 0x2560 0x2563

unfoldable pub blank_prints : ℕ → List (List ℕ)
blank_prints m =
    spaces m ++ ((0x2551 ∷ []) ∷ (spaces box_inner ++ ((0x2551 ∷ []) ∷ ((10 ∷ []) ∷ []))))

unfoldable pub line_prints : List ℕ → ℕ → List (List ℕ)
line_prints text m =
    let content_w = box_inner - 2 in
    let text_len = min (length text) content_w in
    spaces m
    ++ ((0x2551 ∷ (b' ' ∷ []))
        ∷ (chars content_w text
            ++ (spaces (content_w - text_len) ++ ((b' ' ∷ (0x2551 ∷ [])) ∷ ((10 ∷ []) ∷ [])))))

unfoldable pub center_prints : List ℕ → ℕ → List (List ℕ)
center_prints text m =
    let text_len = min (length text) box_inner in
    let left_pad = (box_inner - text_len) / 2 in
    let right_pad = box_inner - text_len - left_pad in
    spaces m
    ++ ((0x2551 ∷ [])
        ∷ (spaces left_pad
            ++ (chars box_inner text ++ (spaces right_pad ++ ((0x2551 ∷ []) ∷ ((10 ∷ []) ∷ []))))))

unfoldable pub kv_prints : List ℕ → List ℕ → ℕ → List (List ℕ)
kv_prints label value m =
    let label_w : ℕ = 20 in
    let value_w = box_inner - 2 - label_w in
    spaces m
    ++ ((0x2551 ∷ (b' ' ∷ []))
        ∷ (chars label_w label
            ++ (spaces (label_w - min (length label) label_w)
                ++ (chars value_w value
                    ++ (spaces (value_w - min (length value) value_w)
                        ++ ((b' ' ∷ (0x2551 ∷ [])) ∷ ((10 ∷ []) ∷ [])))))))

abbrev pub boxed : (ℕ → List (List ℕ)) → Console → Console
boxed row c = prints (row (margin c)) c

-- Several rows, one after the other.
unfoldable pub rows : List (ℕ → List (List ℕ)) → Console → Console
rows [] c = c
rows (row ∷ later) c = rows later (boxed row c)

unfoldable pub show_working : List ℕ → Console → Console
show_working message c =
    rows (top_prints ∷ blank_prints ∷ center_prints message ∷ blank_prints ∷ bottom_prints ∷ [])
      (v_center 5 (clear c))
