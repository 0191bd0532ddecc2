-- ===== src/App/Log.antt =====
-- `LogWriter` of src/main.rs. The buffer and the position are static in the source.
use amt_uefi_boot_app.Prelude.{ℕ, List, ◌*◌, ◌-◌, codes, set, ◌∷◌, ◌+◌, if◌then◌else◌, ltb, []}
pub mod Prefix

abbrev pub log_buf_size : ℕ
log_buf_size = 64 * 1024

-- Behind the limit there are `TAIL` bytes for the marker.
abbrev pub log_limit : ℕ
log_limit = log_buf_size - 32

abbrev pub log_trunc_marker : List ℕ
log_trunc_marker = codes "\n--LOG TRUNCATED--\n"

pub record Log : Type 0 where
  pub log_buf : List ℕ
  pub log_pos : ℕ

abbrev pub put_log : ℕ → Log → Log
put_log b s = record { log_buf = set s.log_buf s.log_pos b; log_pos = s.log_pos + 1 }

unfoldable pub stamp : List ℕ → Log → Log
stamp [] s = s
stamp (m ∷ marker) s = stamp marker (if ltb s.log_pos log_buf_size then put_log m s else s)

unfoldable pub write_str : List ℕ → Log → Log
write_str [] s = s
write_str (b ∷ bytes) s =
    let rest = write_str bytes in
    if ltb s.log_pos log_limit
    then rest (put_log b s)
    else if ltb s.log_pos log_buf_size
    then stamp log_trunc_marker s
    else rest s
