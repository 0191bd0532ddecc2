-- ===== src/Amt/Tests.antt =====
-- Runs of the commands over an engine with one answer, and their theorems at concrete inputs.
use amt_uefi_boot_app.Amt.Status.{get_control_mode_lem}
use amt_uefi_boot_app.Outcome.{Outcome, ok, err, buffer_too_small}
use amt_uefi_boot_app.Amt.Instance.{Counts, mei, receive-Counts}
use amt_uefi_boot_app.Amt.Versions.Table.{print_table, code_versions-print_table}
use amt_uefi_boot_app.Amt.Versions.{code_versions, find}
use amt_uefi_boot_app.Outcome.Rules.{OkIs}
use amt_uefi_boot_app.Amt.Getters.{get_control_mode}
use amt_uefi_boot_app.Amt.Mei.{Mei, pthi_call, check_status}
use amt_uefi_boot_app.Prelude.{
  List, ℕ, ◌≡◌, leb, ◌∷◌, blit, length, codes, replicate, if◌then◌else◌, [], ◌++◌, take, refl, some,
  arith,
}

abbrev answer_of : List ℕ → List ℕ → List ℕ → Outcome (ℕ × List ℕ) × List ℕ
answer_of buf answer c =
    if leb (length answer) (length buf)
    then (ok (length answer, blit buf 0 answer), c)
    else (err buffer_too_small, c)

-- The state is the answer that the engine gives.
abbrev scripted : Mei
scripted = record {
  Ctx = List ℕ;
  send = λ bytes c. (ok tt, c);
  receive = λ buf c. answer_of buf c c;
}

abbrev mode_answer : List ℕ
mode_answer = 1 ∷ 1 ∷ 0 ∷ 0 ∷ 0x6b ∷ 0 ∷ 0 ∷ 4 ∷ 8 ∷ 0 ∷ 0 ∷ 0 ∷ 0 ∷ 0 ∷ 0 ∷ 0 ∷ 2 ∷ 0 ∷ 0 ∷ 0 ∷ []

mode_runs : (get_control_mode scripted mode_answer).0 ≡ ok 2
unfolding get_control_mode pthi_call blit check_status
mode_runs = refl

abbrev table : List (List ℕ × List ℕ)
table = (codes "AMT", codes "16.1.25") ∷ (codes "Sku", codes "16392") ∷ []

code_versions-print_table_example :
    let cv = code_versions (print_table (replicate 65 0) table ++ []) in
    (cv.bios_version ≡ replicate 65 0) × (find cv (codes "Sku") ≡ some (codes "16392"))
code_versions-print_table_example =
    code_versions-print_table (replicate 65 0) [] (codes "Sku") table refl (omega arith)
      (omega arith)

get_control_mode_lem_example : get_control_mode scripted mode_answer ≡ (ok 2, mode_answer)
get_control_mode_lem_example =
    get_control_mode_lem scripted mode_answer mode_answer mode_answer (take 12 mode_answer) 0
      (some 2) refl (omega arith) (omega arith) refl refl

receive-Counts_example :
    OkIs
      (Counts (replicate 20 0))
      ((mei 10 10).receive (replicate 20 0) (record {
        mmio = 0;
        me_addr = 7;
        host_addr = 1;
        max_msg_len = 0;
        cb_depth = 4;
        inputs = [];
        writes = [];
      })).0
receive-Counts_example = receive-Counts 10 10 (replicate 20 0) (record {
  mmio = 0;
  me_addr = 7;
  host_addr = 1;
  max_msg_len = 0;
  cb_depth = 4;
  inputs = [];
  writes = [];
})
