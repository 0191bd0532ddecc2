-- ===== src/Ui/Box/Rows.antt =====
-- What a row of a box of src/ui.rs looks like.
use amt_uefi_boot_app.Ui.Box.Layout.{
  blanks, Row, row_prints, is_plain_row, row_text, line, inner, center, all_plain-row, kv,
  length-row, length-inner, top, bottom, sep, blank,
}
use amt_uefi_boot_app.Ui.Screen.{GopConsole, Console, Cell, cols_of, prints}
use amt_uefi_boot_app.Ui.Screen.Text.{all_plain, text_of, shown, at_place, cells_at, prints-line}
use amt_uefi_boot_app.Prelude.{
  List, ℕ, length, replicate, take, ◌≡◌, ◌-◌, ◌++◌, min, ◌∷◌, suc, arith, [], true, ap, ◌/◌, ◌∙◌,
  sym, append_assoc, refl, zero, ◌+◌, ◌≤◌, ◌<◌, ap₂,
}
use amt_uefi_boot_app.Ui.Box.{
  blank_prints, line_prints, center_prints, kv_prints, spaces, chars, border, margin, boxed,
}

text_of-append : (p q : List (List ℕ)) → text_of (p ++ q) ≡ text_of p ++ text_of q
text_of-append [] q = refl
text_of-append (x ∷ p) q =
    ap (λ t. x ++ t) (text_of-append p q) ∙ sym (append_assoc x (text_of p) (text_of q))

text_of-replicate : (n ch : ℕ) → text_of (replicate n (ch ∷ [])) ≡ replicate n ch
text_of-replicate zero ch = refl
text_of-replicate (suc n) ch = ap (◌∷◌ ch) (text_of-replicate n ch)

text_of-chars : (n : ℕ) (text : List ℕ) → text_of (chars n text) ≡ take n text
text_of-chars zero text = refl
text_of-chars (suc n) [] = refl
text_of-chars (suc n) (ch ∷ text) = ap (◌∷◌ ch) (text_of-chars n text)

minus_min : (width n : ℕ) → width - min n width ≡ width - n
minus_min width n = omega arith

module _ (m : ℕ) where
  -- The strings of a row are its text and the end of the line.
  abbrev IsRow : List (List ℕ) → List ℕ → Type 0
  IsRow texts text =
      (body : List (List ℕ)) × (texts ≡ body ++ ((10 ∷ []) ∷ [])) × (text_of body ≡ text)

  border-IsRow :
      (left right : ℕ)
      → IsRow (border left right m) (blanks m ++ (left ∷ (replicate 60 0x2550 ++ (right ∷ []))))
  unfolding border
  border-IsRow left right =
      let tail = (left ∷ []) ∷ (replicate 60 (0x2550 ∷ []) ++ ((right ∷ []) ∷ [])) in
      (
        spaces m ++ tail,
        sym (append_assoc (spaces m) tail ((10 ∷ []) ∷ [])),
        text_of-append (spaces m) tail ∙ ap (λ t. t ++ text_of tail) (text_of-replicate m b' '),
      )

  row_prints-IsRow : (row : Row) → IsRow (row_prints row m) (row_text m row)
  unfolding blank_prints line_prints center_prints kv_prints
  row_prints-IsRow top = border-IsRow 0x2554 0x2557
  row_prints-IsRow bottom = border-IsRow 0x255A 0x255D
  row_prints-IsRow sep = border-IsRow 0x2560 0x2563
  row_prints-IsRow blank =
      let tail = (0x2551 ∷ []) ∷ (spaces 60 ++ ((0x2551 ∷ []) ∷ [])) in
      (
        spaces m ++ tail,
        sym (append_assoc (spaces m) tail ((10 ∷ []) ∷ [])),
        text_of-append (spaces m) tail ∙ ap (λ t. t ++ text_of tail) (text_of-replicate m b' '),
      )
  row_prints-IsRow (line text) =
      let pad = spaces (58 - min (length text) 58) in
      let body =
        spaces m
        ++ ((0x2551 ∷ (b' ' ∷ [])) ∷ (chars 58 text ++ (pad ++ ((b' ' ∷ (0x2551 ∷ [])) ∷ [])))) in
      (
        body,
        simp append_assoc refl,
        simp (text_of-append, text_of-replicate, text_of-chars, minus_min, append_assoc) refl,
      )
  row_prints-IsRow (center text) =
      let n = 60 - min (length text) 60 in
      let body =
        spaces m
        ++ ((0x2551 ∷ [])
            ∷ (spaces (n / 2)
                ++ (chars 60 text ++ (spaces (n - n / 2) ++ ((0x2551 ∷ []) ∷ []))))) in
      (
        body,
        simp append_assoc refl,
        simp (text_of-append, text_of-replicate, text_of-chars, append_assoc) refl,
      )
  row_prints-IsRow (kv label value) =
      let pad = spaces (20 - min (length label) 20) in
      let pad' = spaces (38 - min (length value) 38) in
      let body =
        spaces m
        ++ ((0x2551 ∷ (b' ' ∷ []))
            ∷ (chars 20 label
                ++ (pad ++ (chars 38 value ++ (pad' ++ ((b' ' ∷ (0x2551 ∷ [])) ∷ [])))))) in
      (
        body,
        simp append_assoc refl,
        simp (text_of-append, text_of-replicate, text_of-chars, minus_min, append_assoc) refl,
      )

margin_fits : (c : Console) → 62 ≤ cols_of c.gop → margin c + 62 ≤ cols_of c.gop
unfolding margin
margin_fits c h = ground arith

-- A row of a box, printed at the start of a line on a screen of at least 62 columns, is one line of
-- the screen: the margin, the left wall, 60 characters, the right wall, each glyph one column behind
-- the last, and then the cursor is at the start of the next line. The 60 characters are the texts
-- of the row cut or filled with blanks to their widths. The texts hold no line end or backspace.
pub boxed_lem :
    (row : Row) (s : GopConsole) (drawn : List Cell)
    → is_plain_row row ≡ true
    → 62 ≤ s.cols
    → s.cur_col ≡ 0
    → s.cur_row < s.rows
    → let c = shown s drawn in
      (boxed (row_prints row) c
        ≡ shown
            (at_place s 0 (s.cur_row + 1))
            (drawn ++ cells_at 0 s.cur_row (row_text (margin c) row)))
      × (length (inner row) ≡ 60)
boxed_lem row s drawn plain wide col above =
    let c = shown s drawn in
    let m = margin c in
    let (body, texts, text) = row_prints-IsRow m row in
    let plain' = ap all_plain text ∙ all_plain-row m row plain in
    let fits = margin_fits c wide in
    let size = ap length text ∙ length-row m row in
    (
      ap (λ ts. prints ts c) texts
          ∙ prints-line body s drawn plain' (omega (arith, fits, size)) above
          ∙ ap₂ (λ n t. shown (at_place s 0 (s.cur_row + 1)) (drawn ++ cells_at n s.cur_row t)) col
              text,
      length-inner row,
    )
