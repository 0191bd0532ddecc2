-- ===== src/Heci/Write.antt =====
-- `wait_slots`, `notify_me` and `write_msg` of src/heci/mod.rs (the UEFI target).
pub mod Fragments
use amt_uefi_boot_app.Heci.Regs.{
  heci_polls, h_csr, me_csr_ha, h_cb_ww, csr_rdy, csr_get_cbd, csr_ig, filled_slots, not32,
  csr_get_wp, csr_is, csr_get_rp, msg_hdr,
}
use amt_uefi_boot_app.Heci.Device.{HeciContext, reg_read, reg_write}
use amt_uefi_boot_app.Prelude.{
  ℕ, List, suc, ◌∷◌, Bool, ◌+◌, if◌then◌else◌, length, bit_and, ◌*◌, ltb, bit_or, ◌^◌, ◌==◌, [],
  ◌-◌, min, leb, ◌&&◌, zero, slice,
}
use amt_uefi_boot_app.Outcome.{waits, timeout, Action, pure, fail, panic, ◌>>=◌, ◌>>◌}

-- The rounds of `wait_slots` that are left. A depth of 0 is a division by zero.
unfoldable pub wait_slots_loop : ℕ → ℕ → Action HeciContext ℕ
wait_slots_loop zero needed = pure 0
wait_slots_loop (suc polls) needed =
    let again = wait_slots_loop polls needed in
    reg_read h_csr >>= λ host. reg_read me_csr_ha >>= λ me.
    if bit_and me csr_rdy == 0
    then pure 0
    else let depth = csr_get_cbd host in
      let empty = depth - filled_slots (csr_get_wp host) (csr_get_rp host) depth - 1 in
      if depth == 0 then panic else if leb needed empty then pure empty else again

unfoldable pub wait_slots : ℕ → Action HeciContext ℕ
wait_slots = wait_slots_loop heci_polls

unfoldable pub notify_me : Action HeciContext (Unit {0})
notify_me = reg_read h_csr >>= λ csr. reg_write h_csr (bit_and (bit_or csr csr_ig) (not32 csr_is))

-- The payload in little-endian words, the last one filled up with zeros.
unfoldable pub dwords : List ℕ → List ℕ
dwords [] = []
dwords (a ∷ []) = a ∷ []
dwords (a ∷ (b ∷ [])) = (a + b * 2 ^ 8) ∷ []
dwords (a ∷ (b ∷ (c ∷ []))) = (a + b * 2 ^ 8 + c * 2 ^ 16) ∷ []
dwords (a ∷ (b ∷ (c ∷ (d ∷ rest)))) = (a + b * 2 ^ 8 + c * 2 ^ 16 + d * 2 ^ 24) ∷ dwords rest

unfoldable pub write_ring : List ℕ → Action HeciContext (Unit {0})
write_ring [] = pure tt
write_ring (word ∷ words) = reg_write h_cb_ww word >> write_ring words

module _ (me host : ℕ) (data_bytes : List ℕ) (complete : Bool) where
  -- One round after `wait_slots`, and then `next` from where it ends.
  unfoldable pub write_fragment :
      ℕ → (ℕ → Action HeciContext (Unit {0})) → ℕ → Action HeciContext (Unit {0})
  write_fragment sent next empty =
      if empty == 0
      then fail timeout
      else let max_payload = (empty - 1) * 4 in
        let frag_len = min (length data_bytes - sent) max_payload in
        let is_last = leb (length data_bytes) (sent + frag_len) in
        reg_write h_cb_ww (msg_hdr me host frag_len (is_last && complete))
        >> (write_ring (dwords (slice data_bytes sent (sent + frag_len)))
            >> (notify_me >> next (sent + frag_len)))

  -- The `while` loop of `write_msg`, with as many rounds as `fuel` allows.
  unfoldable pub write_loop : ℕ → ℕ → Action HeciContext (Unit {0})
  write_loop zero sent = λ s. (waits, s)
  write_loop (suc fuel) sent =
      let again = write_loop fuel in
      if ltb sent (length data_bytes) then (wait_slots 2 >>= write_fragment sent again) else pure tt

-- A round sends a byte at least, so that one round more than there are bytes is enough.
unfoldable pub write_msg : ℕ → ℕ → List ℕ → Bool → Action HeciContext (Unit {0})
write_msg me host data_bytes complete =
    write_loop me host data_bytes complete (suc (length data_bytes)) 0
