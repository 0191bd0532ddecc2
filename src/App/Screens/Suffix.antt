-- ===== src/App/Screens/Suffix.antt =====
-- `do_set_dns_suffix` of src/main.rs.
use amt_uefi_boot_app.App.Utf8.{text_or}
use amt_uefi_boot_app.Ui.Box.{show_working, kv_prints, blank_prints, line_prints, bottom_prints}
use amt_uefi_boot_app.Outcome.{Outcome, ok, pure, Error, ◌>>◌, err, in_bounds, ◌>>=◌, panics, waits}
use amt_uefi_boot_app.Prelude.{
  ℕ, List, Option, codes, ◌∷◌, if◌then◌else◌, ◌==◌, ltb, some, ◌||◌, leb, [], none, length, take,
  replicate,
}
use amt_uefi_boot_app.App.Machine.{
  Machine, World, App, mei_of, try_ctx, error_of, show, heading, end_screen, paint,
}
use amt_uefi_boot_app.Amt.Getters.{get_dns_suffix, set_dns_suffix, max_dns_suffix_len}
use amt_uefi_boot_app.App.Input.{read_line}
use amt_uefi_boot_app.App.Screens.Deactivate.{error_text}

module _ (M : Machine) where
  -- The keys up to Enter. What they echo has no counterpart.
  abbrev pub took_line : World M → Outcome ℕ × List ℕ → List ℕ → Outcome (ℕ × List ℕ) × World M
  took_line w (ok len, buf) keys = (ok (len, buf), record w { keys = keys })
  took_line w (err e, buf) keys = (err e, record w { keys = keys })
  took_line w (panics, buf) keys = (panics, record w { keys = keys })
  took_line w (waits, buf) keys = (waits, record w { keys = keys })

  -- The keys behind the first Enter.
  abbrev pub after_line : List ℕ → List ℕ
  after_line [] = []
  after_line (code ∷ keys) = if code == 0x0D || code == 0x0A then keys else after_line keys

  unfoldable pub input_line : List ℕ → App M (ℕ × List ℕ)
  input_line buf w = took_line w (read_line w.keys buf) (after_line w.keys)

  -- `&cur[..len]`, or a word for an empty suffix.
  abbrev pub suffix_row : List ℕ → List ℕ → List ℕ × ℕ → App M (Unit {0})
  suffix_row label word (cur, len) =
      if ltb 0 len
      then in_bounds (leb len (length cur))
        >> show M (kv_prints label (text_or (take len cur) (codes "?")) ∷ [])
      else show M (kv_prints label word ∷ [])

  abbrev pub current_suffix : Option (List ℕ × ℕ) → App M (Unit {0})
  current_suffix none = pure tt
  current_suffix (some suffix) =
      suffix_row (codes "Current") (codes "(not set)") suffix >> show M (blank_prints ∷ [])

  abbrev pub new_suffix : Option (List ℕ × ℕ) → App M (Unit {0})
  new_suffix none = pure tt
  new_suffix (some suffix) = suffix_row (codes "New Value") (codes "(cleared)") suffix

  abbrev pub suffix_rows : Option Error → App M (Unit {0})
  suffix_rows none =
      show M (kv_prints (codes "Status") (codes "SUCCESS") ∷ [])
      >> (try_ctx M (get_dns_suffix (mei_of M)) >>= new_suffix)
  suffix_rows (some e) = show M (kv_prints (codes "Status") (error_text e) ∷ [])

  -- `&buf[..len]`
  unfoldable pub set_suffix : ℕ × List ℕ → App M (Unit {0})
  set_suffix (len, buf) =
      paint M (show_working (codes "Setting DNS suffix..."))
      >> (in_bounds (leb len (length buf))
          >> (error_of M (set_dns_suffix (mei_of M) (take len buf)) >>= λ result.
              heading M 10 (codes "Set DNS Suffix Result") >> (suffix_rows result >> end_screen M)))

  unfoldable pub do_set_dns_suffix : App M (Unit {0})
  do_set_dns_suffix =
      heading M 14 (codes "Set PKI DNS Suffix")
      >> (try_ctx M (get_dns_suffix (mei_of M)) >>= λ cur.
          current_suffix cur
          >> (show M (
                line_prints (codes "Enter new DNS suffix (ASCII, empty = clear):")
                ∷ line_prints (codes "Press Enter to confirm, Backspace to edit.")
                ∷ blank_prints
                ∷ bottom_prints
                ∷ [])
              >> (input_line (replicate max_dns_suffix_len 0) >>= set_suffix)))
