-- ===== src/Ui/Tests.antt =====
-- The theorems on src/ui.rs at concrete inputs.
use amt_uefi_boot_app.Ui.Box.Layout.{Row, row_prints, kv, row_text, inner}
use amt_uefi_boot_app.Ui.Box.{boxed, margin}
use amt_uefi_boot_app.Ui.Screen.Text.{shown, at_place, cells_at}
use amt_uefi_boot_app.Prelude.{codes, [], ◌≡◌, ◌++◌, arith, length, refl}
use amt_uefi_boot_app.Ui.Screen.{GopConsole}
use amt_uefi_boot_app.Ui.Box.Rows.{boxed_lem}

abbrev wide_console : GopConsole
wide_console = record {
  screen_w = 800;
  screen_h = 600;
  cols = 100;
  rows = 37;
  cur_col = 0;
  cur_row = 5;
}

abbrev status : Row
status = kv (codes "Status") (codes "SUCCESS")

boxed_lem_example :
    let c = shown wide_console [] in
    (boxed (row_prints status) c
      ≡ shown (at_place wide_console 0 6) ([] ++ cells_at 0 5 (row_text (margin c) status)))
    × (length (inner status) ≡ 60)
boxed_lem_example = boxed_lem status wide_console [] refl (omega arith) refl (omega arith)
