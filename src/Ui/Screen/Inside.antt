-- ===== src/Ui/Screen/Inside.antt =====
-- Where src/ui.rs draws.
use amt_uefi_boot_app.Prelude.{ℕ, List, ◌≡◌, Option, ◌≤◌, ◌+◌, ◌∷◌, some, ◌/◌, [], none}
use amt_uefi_boot_app.Ui.Screen.{
  GopConsole, Cell, Console, Put, prints, clear, init_screen, font_w, font_h,
}

-- The whole glyph is on a screen of this size.
abbrev pub IsOn : ℕ → ℕ → Cell → Type 0
IsOn w h cell = (cell.px + font_w ≤ w) × (cell.py + font_h ≤ h)

abbrev pub AllOn : ℕ → ℕ → List Cell → Type 0
AllOn w h [] = Unit
AllOn w h (cell ∷ cells) = IsOn w h cell × AllOn w h cells

-- The console of a screen of this size.
abbrev pub IsGop : ℕ → ℕ → GopConsole → Type 0
IsGop w h s = (s.screen_w ≡ w) × (s.screen_h ≡ h) × (s.cols ≡ w / font_w) × (s.rows ≡ h / font_h)

abbrev pub IsGopOrNone : ℕ → ℕ → Option GopConsole → Type 0
IsGopOrNone w h none = Unit
IsGopOrNone w h (some s) = IsGop w h s

abbrev pub IsConsole : ℕ → ℕ → Console → Type 0
IsConsole w h c = IsGopOrNone w h c.gop × AllOn w h c.drawn

abbrev IsPut : ℕ → ℕ → Put → Type 0
IsPut w h put = IsGop w h put.state × AllOn w h put.cells

-- What any screens show: texts are printed and the screen is cleared, from `init` on.
pub data Shows (w h : ℕ) : Console → Type 0 where
  starts : Shows w h (init_screen w h)
  printed : {c : Console} → (texts : List (List ℕ)) → Shows w h c → Shows w h (prints texts c)
  cleared : {c : Console} → Shows w h c → Shows w h (clear c)
