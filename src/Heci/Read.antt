-- ===== src/Heci/Read.antt =====
-- `read_msg` of src/heci/mod.rs (the UEFI target). The bytes that a failed call has stored in the
-- caller's buffer are left out: no caller looks at them.
pub mod Reassembly
use amt_uefi_boot_app.Prelude.{
  ℕ, zero, suc, ◌+◌, ◌/◌, ◌%◌, ◌^◌, Bool, true, false, List, [], ◌∷◌, ◌++◌, ◌==◌, ltb,
  if◌then◌else◌, length, take, blit, bit_or,
}
use amt_uefi_boot_app.Outcome.{waits, timeout, buffer_too_small, Action, pure, fail, ◌>>=◌, ◌>>◌}
use amt_uefi_boot_app.Lme.Transport.{Received}
use amt_uefi_boot_app.Heci.Device.{HeciContext, reg_read, reg_write}
use amt_uefi_boot_app.Heci.Regs.{
  csr_get_wp, csr_get_rp, me_csr_ha, me_cb_rw, h_csr, heci_polls, csr_ig, hdr_length, csr_is,
  hdr_me_addr, hdr_host_addr, hdr_complete,
}

-- The polls that are left; the result is whether there is data.
unfoldable pub wait_data_loop : ℕ → Action HeciContext Bool
wait_data_loop zero = pure false
wait_data_loop (suc polls) =
    let again = wait_data_loop polls in
    reg_read me_csr_ha >>= λ csr. if csr_get_wp csr == csr_get_rp csr then again else pure true

unfoldable pub read_words : ℕ → Action HeciContext (List ℕ)
read_words zero = pure []
read_words (suc n) = reg_read me_cb_rw >>= λ word. read_words n >>= λ words. pure (word ∷ words)

abbrev pub word_bytes : ℕ → List ℕ
word_bytes word =
    word % 2 ^ 8 ∷ word / 2 ^ 8 % 2 ^ 8 ∷ word / 2 ^ 16 % 2 ^ 8 ∷ word / 2 ^ 24 % 2 ^ 8 ∷ []

unfoldable pub words_bytes : List ℕ → List ℕ
words_bytes [] = []
words_bytes (word ∷ words) = word_bytes word ++ words_bytes words

-- The interrupt that says a fragment was taken.
unfoldable pub acknowledge : Action HeciContext (Unit {0})
acknowledge = reg_read h_csr >>= λ csr. reg_write h_csr (bit_or (bit_or csr csr_ig) csr_is)

-- A fragment's payload, of `frag_len` bytes, into `buf` at `total`.
unfoldable pub read_payload : ℕ → ℕ → List ℕ → Action HeciContext (List ℕ)
read_payload total frag_len buf =
    if ltb (length buf) (total + frag_len)
    then (read_words ((frag_len + 3) / 4) >>= λ _. fail buffer_too_small)
    else (read_words ((frag_len + 3) / 4) >>= λ words.
        acknowledge >> pure (blit buf total (take frag_len (words_bytes words))))

-- The outer loop of `read_msg`, over as many fragments as `fuel` allows: a fragment may be empty.
-- `first` is `first_fragment`. With a timeout in the middle of a message what there is of it is
-- returned.
unfoldable pub read_loop : ℕ → ℕ → Bool → ℕ → ℕ → List ℕ → Action HeciContext Received
read_loop zero total first me host buf = λ s. (waits, s)
read_loop (suc fuel) total first me host buf =
    let again = read_loop fuel in
    wait_data_loop heci_polls >>= λ has_data.
    if has_data
    then (reg_read me_cb_rw >>= λ hdr.
        let frag_len = hdr_length hdr in
        let out_me = if first then hdr_me_addr hdr else me in
        let out_host = if first then hdr_host_addr hdr else host in
        read_payload total frag_len buf >>= λ filled.
        if hdr_complete hdr
        then pure (record {
          count = total + frag_len;
          from_me = out_me;
          to_host = out_host;
          bytes = filled;
        })
        else again (total + frag_len) false out_me out_host filled)
    else if ltb 0 total
    then pure (record { count = total; from_me = me; to_host = host; bytes = buf })
    else fail timeout

unfoldable pub read_msg : ℕ → List ℕ → Action HeciContext Received
read_msg fuel buf = read_loop fuel 0 true 0 0 buf
