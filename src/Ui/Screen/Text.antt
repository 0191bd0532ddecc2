-- ===== src/Ui/Screen/Text.antt =====
-- A text with no control characters, on one row of the screen of src/ui.rs.
use amt_uefi_boot_app.Prelude.{
  ℕ, List, Bool, ◌∷◌, ◌≡◌, ◌++◌, not, true, ◌*◌, ◌+◌, ◌&&◌, length, ◌==◌, [], ap, ◌≤◌, arith, ◌<◌,
  ◌∙◌, false, suc, leb, some, length-append, refl, append_assoc, sym,
}
use amt_uefi_boot_app.Ui.Screen.{
  GopConsole, Cell, Console, put_char, put_chars, write_str, prints, font_w, font_h,
}

abbrev pub is_plain : ℕ → Bool
is_plain ch = not (ch == 10) && not (ch == 8)

abbrev pub all_plain : List ℕ → Bool
all_plain [] = true
all_plain (ch ∷ text) = is_plain ch && all_plain text

-- One glyph after the other, from a place on.
abbrev pub cells_at : ℕ → ℕ → List ℕ → List Cell
cells_at col row [] = []
cells_at col row (ch ∷ text) =
    record { px = col * font_w; py = row * font_h; ch = ch } ∷ cells_at (col + 1) row text

abbrev pub at_place : GopConsole → ℕ → ℕ → GopConsole
at_place s col row = record s { cur_col = col; cur_row = row }

cells_at-append :
    (col row : ℕ) (p q : List ℕ)
    → cells_at col row (p ++ q) ≡ cells_at col row p ++ cells_at (col + length p) row q
cells_at-append col row [] q = ap (λ n. cells_at n row q) {x = col} {y = col + 0} (omega arith)
cells_at-append col row (x ∷ p) q =
    ap (λ cs. record { px = col * font_w; py = row * font_h; ch = x } ∷ cs)
      (cells_at-append (col + 1) row p q
        ∙ ap (λ n. cells_at (col + 1) row p ++ cells_at n row q) {x = col + 1 + length p}
            {y = col + suc (length p)} (omega arith))

put_chars-plain :
    (text : List ℕ) (s : GopConsole)
    → all_plain text ≡ true
    → s.cur_col + length text ≤ s.cols
    → s.cur_row < s.rows
    → put_chars text s
      ≡ (at_place s (s.cur_col + length text) s.cur_row, cells_at s.cur_col s.cur_row text)
unfolding put_chars put_char
put_chars-plain [] s h fits above =
    ap (λ (n : ℕ). (record s { cur_col = n }, [])) {x = s.cur_col} {y = s.cur_col + 0} (omega arith)
put_chars-plain (ch ∷ text) s h fits above =
    let a : (ch == 10) ≡ false = ground (arith, h) in
    let b : (ch == 8) ≡ false = ground (arith, h) in
    let c : leb s.cols s.cur_col ≡ false = ground arith in
    let d : leb s.rows s.cur_row ≡ false = ground arith in
    let next = record s { cur_col = s.cur_col + 1 } in
    let rest = put_chars-plain text next (ground (arith, h)) (omega arith) above in
    rw (a, b, c, d, rest)
      (ap
        (λ (n : ℕ). (
          at_place s n s.cur_row,
          record { px = s.cur_col * font_w; py = s.cur_row * font_h; ch = ch }
              ∷ cells_at (s.cur_col + 1) s.cur_row text,
        ))
        {x = s.cur_col + 1 + length text} {y = s.cur_col + suc (length text)} (omega arith))

abbrev pub text_of : List (List ℕ) → List ℕ
text_of [] = []
text_of (text ∷ texts) = text ++ text_of texts

-- A console with these glyphs on it.
abbrev pub shown : GopConsole → List Cell → Console
shown s drawn = record { gop = some s; drawn = drawn }

all_plain-append :
    (p q : List ℕ) → all_plain (p ++ q) ≡ true → (all_plain p ≡ true) × (all_plain q ≡ true)
all_plain-append [] q h = (refl, h)
all_plain-append (x ∷ p) q h =
    let (a, b) = all_plain-append p q (ground (arith, h)) in (ground (arith, h, a), b)

-- A line of text, printed in several strings, and the end of the line.
pub prints-line :
    (texts : List (List ℕ)) (s : GopConsole) (drawn : List Cell)
    → all_plain (text_of texts) ≡ true
    → s.cur_col + length (text_of texts) ≤ s.cols
    → s.cur_row < s.rows
    → prints (texts ++ ((10 ∷ []) ∷ [])) (shown s drawn)
      ≡ shown (at_place s 0 (s.cur_row + 1)) (drawn ++ cells_at s.cur_col s.cur_row (text_of texts))
unfolding prints write_str put_chars put_char
prints-line [] s drawn h fits above = refl
prints-line (text ∷ texts) s drawn h fits above =
    let (here, later) = all_plain-append text (text_of texts) h in
    let size = length-append text (text_of texts) in
    let first = put_chars-plain text s here (omega (arith, size)) above in
    let next = at_place s (s.cur_col + length text) s.cur_row in
    let cells = cells_at s.cur_col s.cur_row text in
    ap
      (λ (out : GopConsole × List Cell).
        prints (texts ++ ((10 ∷ []) ∷ [])) (shown out.0 (drawn ++ out.1)))
      first
    ∙ prints-line texts next (drawn ++ cells) later (omega (arith, size)) above
    ∙ ap (λ cs. shown (at_place s 0 (s.cur_row + 1)) cs)
        (append_assoc drawn cells (cells_at (s.cur_col + length text) s.cur_row (text_of texts))
          ∙ ap (λ cs. drawn ++ cs) (sym (cells_at-append s.cur_col s.cur_row text (text_of texts))))
