-- ===== src/Heci/Regs.antt =====
-- src/heci/regs.rs: the fields of the control registers and of a message header, as words below
-- 2 ^ 32. Registers are named by their offset from BAR0.
use amt_uefi_boot_app.Prelude.Bits.{bit_and_field, bit_and_mask, bit_or_low}
use amt_uefi_boot_app.Prelude.{
  ℕ, ◌^◌, bit_and, ◌+◌, Bool, ◌≡◌, ◌≤◌, ◌-◌, ◌/◌, bit_or, not, ◌<◌, ◌%◌, ◌*◌, ◌==◌, if◌then◌else◌,
  arith, suc, zero, true, false,
}

abbrev pub h_cb_ww : ℕ
h_cb_ww = 0x00

abbrev pub h_csr : ℕ
h_csr = 0x04

abbrev pub me_cb_rw : ℕ
me_cb_rw = 0x08

abbrev pub me_csr_ha : ℕ
me_csr_ha = 0x0c

abbrev pub csr_is : ℕ
csr_is = 2

abbrev pub csr_ig : ℕ
csr_ig = 4

abbrev pub csr_rdy : ℕ
csr_rdy = 8

abbrev pub csr_rst : ℕ
csr_rst = 16

-- `!x` on 32 bits
abbrev pub not32 : ℕ → ℕ
not32 x = 2 ^ 32 - 1 - x

unfoldable pub csr_get_rp : ℕ → ℕ
csr_get_rp csr = bit_and csr 0x0000_ff00 / 2 ^ 8

unfoldable pub csr_get_wp : ℕ → ℕ
csr_get_wp csr = bit_and csr 0x00ff_0000 / 2 ^ 16

unfoldable pub csr_get_cbd : ℕ → ℕ
csr_get_cbd csr = bit_and csr 0xff00_0000 / 2 ^ 24

-- `wp.wrapping_sub(rp) % depth`. A depth of 0 panics there; `Write.wait_slots` has that branch.
unfoldable pub filled_slots : ℕ → ℕ → ℕ → ℕ
filled_slots wp rp depth = (wp + 2 ^ 32 - rp) % 2 ^ 32 % depth

-- 5 seconds in polls of 1 ms
abbrev pub heci_polls : ℕ
heci_polls = 5000

-- `HeciMsgHdr::new` and its fields
unfoldable pub msg_hdr : ℕ → ℕ → ℕ → Bool → ℕ
msg_hdr me host len complete =
    bit_or (bit_or (bit_or me (host * 2 ^ 8)) (bit_and len 0x1ff * 2 ^ 16))
      (if complete then 2 ^ 31 else 0)

unfoldable pub hdr_me_addr : ℕ → ℕ
hdr_me_addr raw = bit_and raw 0xff

unfoldable pub hdr_host_addr : ℕ → ℕ
hdr_host_addr raw = bit_and (raw / 2 ^ 8) 0xff

unfoldable pub hdr_length : ℕ → ℕ
hdr_length raw = bit_and (raw / 2 ^ 16) 0x1ff

unfoldable pub hdr_complete : ℕ → Bool
hdr_complete raw = not (raw / 2 ^ 31 == 0)

-- The fields as arithmetic.
pub csr_get_rp_lem : (csr : ℕ) → csr_get_rp csr ≡ csr / 2 ^ 8 % 2 ^ 8
unfolding csr_get_rp
csr_get_rp_lem csr = bit_and_field 8 8 csr

pub csr_get_wp_lem : (csr : ℕ) → csr_get_wp csr ≡ csr / 2 ^ 16 % 2 ^ 8
unfolding csr_get_wp
csr_get_wp_lem csr = bit_and_field 8 16 csr

pub csr_get_cbd_lem : (csr : ℕ) → csr_get_cbd csr ≡ csr / 2 ^ 24 % 2 ^ 8
unfolding csr_get_cbd
csr_get_cbd_lem csr = bit_and_field 8 24 csr

-- A header as a sum of its fields.
pub msg_hdr_sum :
    (me host len : ℕ) (complete : Bool)
    → me < 256
    → host < 256
    → msg_hdr me host len complete
      ≡ me + host * 2 ^ 8 + len % 512 * 2 ^ 16 + (if complete then 2 ^ 31 else 0)
unfolding msg_hdr
msg_hdr_sum me host len true hm hh =
    let n = bit_and_mask 9 len in
    let a = bit_or_low 8 me host (omega arith) in
    let b = bit_or_low 16 (me + host * 2 ^ 8) (len % 512) (omega arith) in
    let c = bit_or_low 31 (me + host * 2 ^ 8 + len % 512 * 2 ^ 16) 1 (omega arith) in rw (n, a, b) c
msg_hdr_sum me host len false hm hh =
    let n = bit_and_mask 9 len in
    let a = bit_or_low 8 me host (omega arith) in
    let b = bit_or_low 16 (me + host * 2 ^ 8) (len % 512) (omega arith) in
    let c = bit_or_low 31 (me + host * 2 ^ 8 + len % 512 * 2 ^ 16) 0 (omega arith) in rw (n, a, b) c

-- A header gives its addresses and the flag back, and the length modulo 512: the field has nine
-- bits, so a length of 512 or more is cut.
pub msg_hdr_fields :
    (me host len : ℕ) (complete : Bool)
    → me < 256
    → host < 256
    → let raw = msg_hdr me host len complete in
      (hdr_me_addr raw ≡ me)
      × (hdr_host_addr raw ≡ host)
      × (hdr_length raw ≡ len % 512)
      × (hdr_complete raw ≡ complete)
      × (raw < 2 ^ 32)
unfolding hdr_me_addr hdr_host_addr hdr_length hdr_complete
msg_hdr_fields me host len complete hm hh =
    let raw = msg_hdr me host len complete in
    ground (
      arith,
      msg_hdr_sum me host len complete hm hh,
      bit_and_mask 8 raw,
      bit_and_mask 8 (raw / 2 ^ 8),
      bit_and_mask 9 (raw / 2 ^ 16),
    )

-- The pointers of the ring count modulo 256. Of `n` words put in since the read pointer stood at
-- `rp`, `filled_slots` counts `n`, if the depth is a power of two up to 128 and `n` is below it.
pub filled_slots_lem :
    (j rp n : ℕ) → j ≤ 7 → rp < 256 → n < 2 ^ j → filled_slots ((rp + n) % 256) rp (2 ^ j) ≡ n
unfolding filled_slots
filled_slots_lem zero rp n h r b = omega arith
filled_slots_lem (suc zero) rp n h r b = omega arith
filled_slots_lem (suc (suc zero)) rp n h r b = omega arith
filled_slots_lem (suc (suc (suc zero))) rp n h r b = omega arith
filled_slots_lem (suc (suc (suc (suc zero)))) rp n h r b = omega arith
filled_slots_lem (suc (suc (suc (suc (suc zero))))) rp n h r b = omega arith
filled_slots_lem (suc (suc (suc (suc (suc (suc zero)))))) rp n h r b = omega arith
filled_slots_lem (suc (suc (suc (suc (suc (suc (suc zero))))))) rp n h r b = omega arith
filled_slots_lem (suc (suc (suc (suc (suc (suc (suc (suc j)))))))) rp n h r b = absurd (omega arith)
