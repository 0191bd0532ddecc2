-- ===== src/App/Tests.antt =====
-- The theorems on the log and the line input at concrete inputs.
use amt_uefi_boot_app.Outcome.{ok}
use amt_uefi_boot_app.App.Input.{read_line}
use amt_uefi_boot_app.App.Input.Edit.{edit, read_line_lem}
use amt_uefi_boot_app.App.Log.Prefix.{HoldsLog, write_str-HoldsLog}
use amt_uefi_boot_app.Prelude.{
  replicate, [], codes, length-replicate, ◌++◌, ℕ, ◌∷◌, arith, ◌≡◌, sym, refl, take_all, length,
  take, ◌≤◌,
}
use amt_uefi_boot_app.App.Log.{Log, write_str}

abbrev empty_log : Log
empty_log = record { log_buf = replicate 65536 0; log_pos = 0 }

empty_log-HoldsLog : HoldsLog [] empty_log
empty_log-HoldsLog = record {
  size = length-replicate {A = ℕ} 65536 0;
  inside = omega arith;
  counts = omega arith;
  text = sym (take_all 65504 [] (omega arith));
}

write_str-HoldsLog_example :
    HoldsLog (codes "HECI: reset\n") (write_str (codes "HECI: reset\n") empty_log)
write_str-HoldsLog_example =
    write_str-HoldsLog (codes "HECI: reset\n") [] empty_log empty_log-HoldsLog

-- "ab", an erase key, "c", a key with no character, Enter, and one key more.
read_line_lem_example :
    let line = edit 8 (codes "ab" ++ (8 ∷ (b'c' ∷ (27 ∷ [])))) [] in
    let (o, out) =
      read_line ((codes "ab" ++ (8 ∷ (b'c' ∷ (27 ∷ [])))) ++ (13 ∷ codes "x")) (replicate 8 0) in
    (o ≡ ok (length line)) × (take (length line) out ≡ line) × (length line ≤ 8)
read_line_lem_example =
    read_line_lem (codes "ab" ++ (8 ∷ (b'c' ∷ (27 ∷ [])))) (codes "x") 13 (replicate 8 0) refl refl

line_test : edit 8 (codes "ab" ++ (8 ∷ (b'c' ∷ (27 ∷ [])))) [] ≡ codes "ac"
line_test = refl
