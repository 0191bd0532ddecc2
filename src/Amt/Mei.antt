-- ===== src/Amt/Mei.antt =====
-- `make_header` and `pthi_call` of src/amt.rs, and the operations of `HeciContext` under them.
use amt_uefi_boot_app.Outcome.{Action, ◌>>◌, ◌>>=◌, fail, device_error, pure, amt_status}
use amt_uefi_boot_app.Prelude.{
  ℕ, List, blit, ◌∷◌, if◌then◌else◌, le_bytes, ltb, ◌++◌, read_le32, ◌==◌,
}

-- `receive` gives the byte count and the caller's buffer.
pub record Mei : Type 1 where
  pub Ctx : Type 0
  pub send : List ℕ → Action Ctx (Unit {0})
  pub receive : List ℕ → Action Ctx (ℕ × List ℕ)

abbrev pub pthi_header_size : ℕ
pthi_header_size = 12

abbrev pub pthi_resp_header_size : ℕ
pthi_resp_header_size = 16

unfoldable pub make_header : List ℕ → ℕ → ℕ → List ℕ
make_header buf command payload_length =
    blit buf 0 (1 ∷ 1 ∷ 0 ∷ 0 ∷ (le_bytes 4 command ++ le_bytes 4 payload_length))

-- `resp` has 16 bytes or more in every call.
unfoldable pub check_status : ℕ × List ℕ → {S : Type 0} → Action S (ℕ × List ℕ)
check_status (received, resp) =
    if ltb received pthi_resp_header_size
    then fail device_error
    else if read_le32 resp 12 == 0
    then pure (received, resp)
    else fail (amt_status (read_le32 resp 12))

unfoldable pub pthi_call : (M : Mei) → List ℕ → List ℕ → Action M.Ctx (ℕ × List ℕ)
unfolding check_status
pthi_call M cmd resp = M.send cmd >> (M.receive resp >>= λ answer. check_status answer)
