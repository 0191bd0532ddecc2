-- ===== src/App/Input.antt =====
-- `read_line` of src/ui.rs. The keys that `wait_key` gives stand in a list; with none left it
-- waits. The echo has no counterpart.
use amt_uefi_boot_app.Outcome.{Action, waits, ok}
use amt_uefi_boot_app.Prelude.{
  List, ℕ, Option, ◌∷◌, if◌then◌else◌, ◌==◌, ◌||◌, ◌-◌, ltb, leb, length, ◌+◌, set, [],
}
pub mod Edit

-- The loop of `read_line`; the result is the number of bytes in the buffer.
unfoldable pub read_loop : List ℕ → ℕ → Action (List ℕ) ℕ
read_loop [] len buf = (waits, buf)
read_loop (code ∷ keys) len buf =
    let next = read_loop keys in
    if code == 0x0D || code == 0x0A
    then (ok len, buf)
    else if code == 0x08 || code == 0x7F
    then next (len - 1) buf
    else if ltb code 0x20 || ltb 0x7E code
    then next len buf
    else if leb (length buf) len
    then next len buf
    else next (len + 1) (set buf len code)

abbrev pub read_line : List ℕ → Action (List ℕ) ℕ
read_line keys = read_loop keys 0
