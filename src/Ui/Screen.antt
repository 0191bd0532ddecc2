-- ===== src/Ui/Screen.antt =====
-- `GopConsole` and `GopWriter` of src/ui.rs. The screen is the list of the glyphs drawn since it
-- was last filled. The protocol that `init` found is taken to be there later on.
use amt_uefi_boot_app.Prelude.{
  ℕ, Option, List, if◌then◌else◌, Bool, leb, ◌==◌, ◌∷◌, some, ltb, ◌+◌, [], ◌++◌, ◌/◌, ◌-◌, none,
  false, true, replicate, ◌*◌,
}
pub mod Inside
pub mod Text

abbrev pub font_w : ℕ
font_w = 8

abbrev pub font_h : ℕ
font_h = 16

pub record GopConsole : Type 0 where
  pub screen_w : ℕ
  pub screen_h : ℕ
  pub cols : ℕ
  pub rows : ℕ
  pub cur_col : ℕ
  pub cur_row : ℕ

-- A glyph, at the pixel where its upper left corner is.
pub record Cell : Type 0 where
  pub px : ℕ
  pub py : ℕ
  pub ch : ℕ

-- `gop` is `GOP`, which is none if there was no graphics output to find.
pub record Console : Type 0 where
  pub gop : Option GopConsole
  pub drawn : List Cell

-- What follows a character: the state, what it drew, and whether the string goes on.
pub record Put : Type 0 where
  pub state : GopConsole
  pub cells : List Cell
  pub goes_on : Bool

-- At the end of a row the next one is begun.
abbrev pub wrapped : GopConsole → GopConsole
wrapped s = if leb s.cols s.cur_col then record s { cur_col = 0; cur_row = s.cur_row + 1 } else s

abbrev pub draw : ℕ → GopConsole → Put
draw ch s =
    if leb s.rows s.cur_row then record { state = s; cells = []; goes_on = false } else record {
      state = record s { cur_col = s.cur_col + 1 };
      cells = record { px = s.cur_col * font_w; py = s.cur_row * font_h; ch = ch } ∷ [];
      goes_on = true;
    }

unfoldable pub put_char : ℕ → GopConsole → Put
put_char ch s =
    if ch == 10
    then record {
      state = record s { cur_col = 0; cur_row = s.cur_row + 1 };
      cells = [];
      goes_on = true;
    }
    else if ch == 8
    then record { state = record s { cur_col = s.cur_col - 1 }; cells = []; goes_on = true }
    else draw ch (wrapped s)

-- The loop of `write_str`: the state, and what was drawn.
unfoldable pub put_chars : List ℕ → GopConsole → GopConsole × List Cell
put_chars [] s = (s, [])
put_chars (ch ∷ text) s =
    let put = put_char ch s in
    let (later, cells) = put_chars text put.state in
    if put.goes_on then (later, put.cells ++ cells) else (put.state, put.cells)

abbrev pub write_gop : List ℕ → Option GopConsole → List Cell → Console
write_gop text none drawn = record { gop = none; drawn = drawn }
write_gop text (some s) drawn =
    let (t, cells) = put_chars text s in record { gop = some t; drawn = drawn ++ cells }

-- With no console an error comes back, which every caller drops.
unfoldable pub write_str : List ℕ → Console → Console
write_str text c = write_gop text c.gop c.drawn

-- `ui_print!`, several times.
unfoldable pub prints : List (List ℕ) → Console → Console
prints [] c = c
prints (text ∷ texts) c = prints texts (write_str text c)

-- `init` on a graphics output of this resolution.
unfoldable pub init_screen : ℕ → ℕ → Console
init_screen w h = record {
  gop = some (record {
    screen_w = w;
    screen_h = h;
    cols = w / font_w;
    rows = h / font_h;
    cur_col = 0;
    cur_row = 0;
  });
  drawn = [];
}

abbrev pub clear_gop : Option GopConsole → List Cell → Console
clear_gop none drawn = record { gop = none; drawn = drawn }
clear_gop (some s) drawn = record { gop = some (record s { cur_col = 0; cur_row = 0 }); drawn = [] }

unfoldable pub clear : Console → Console
clear c = clear_gop c.gop c.drawn

abbrev pub rows_of : Option GopConsole → ℕ
rows_of none = 25
rows_of (some s) = s.rows

abbrev pub cols_of : Option GopConsole → ℕ
cols_of none = 80
cols_of (some s) = s.cols

unfoldable pub v_center : ℕ → Console → Console
v_center content_lines c =
    let rows = rows_of c.gop in
    let skip = if ltb content_lines rows then (rows - content_lines) / 2 else 0 in
    prints (replicate skip (10 ∷ [])) c
