-- ===== src/Md5.antt =====
-- src/md5.rs: MD5 over words below 2 ^ 32.
use amt_uefi_boot_app.Md5.Transform.{Words, md5_transform}
use amt_uefi_boot_app.Prelude.{
  ℕ, replicate, List, suc, length, ◌/◌, [], if◌then◌else◌, ◌∷◌, ◌++◌, blit, ◌%◌, ltb, take, bit_and,
  drop, ◌-◌, ◌^◌, ◌+◌, ◌*◌, zero, leb, le_bytes,
}
pub mod Hash
pub mod Stream
pub mod Transform
mod Tests

pub record Md5Ctx : Type 0 where
  pub state : Words
  pub count : ℕ
  pub buffer : List ℕ

unfoldable pub new : Md5Ctx
new = record {
  state = record {
    word_a = 0x6745_2301;
    word_b = 0xefcd_ab89;
    word_c = 0x98ba_dcfe;
    word_d = 0x1032_5476;
  };
  count = 0;
  buffer = replicate 64 0;
}

-- The loop over full blocks: `n` of them.
unfoldable pub full_blocks : ℕ → Words → List ℕ → Words
full_blocks zero state bytes = state
full_blocks (suc n) state bytes =
    full_blocks n (md5_transform state (take 64 bytes)) (drop 64 bytes)

-- `update` from the end of the partial block on, with the bytes that are left of its data.
unfoldable pub update_blocks : Md5Ctx → List ℕ → Md5Ctx
update_blocks c bytes =
    let n = length bytes / 64 in
    record c { state = full_blocks n c.state bytes; buffer = blit c.buffer 0 (drop (n * 64) bytes) }

-- `count` wraps at 64 bits. A buffer that takes no bytes stays as it is.
unfoldable pub update : Md5Ctx → List ℕ → Md5Ctx
update old bytes =
    let index = old.count / 8 % 64 in
    let part_len = 64 - index in
    let c = record old { count = (old.count + length bytes * 8) % 2 ^ 64 } in
    let filled = blit c.buffer index (take part_len bytes) in
    let next = record c { buffer = filled; state = md5_transform c.state filled } in
    if ltb 0 index
    then if leb part_len (length bytes)
      then update_blocks next (drop part_len bytes)
      else record c { buffer = blit c.buffer index bytes }
    else update_blocks c bytes

unfoldable pub pad_len : ℕ → ℕ
pad_len index = if ltb index 56 then 56 - index else 120 - index

unfoldable pub finalize : Md5Ctx → List ℕ
finalize c =
    let padding = 0x80 ∷ replicate 63 0 in
    let padded = update c (take (pad_len (c.count / 8 % 64)) padding) in
    let s = (update padded (le_bytes 8 c.count)).state in
    le_bytes 4 s.word_a ++ (le_bytes 4 s.word_b ++ (le_bytes 4 s.word_c ++ le_bytes 4 s.word_d))

unfoldable pub md5_hash : List ℕ → List ℕ
md5_hash bytes = finalize (update new bytes)

abbrev pub hex_char : ℕ → ℕ
hex_char d = if ltb d 10 then 48 + d else 87 + d

unfoldable pub hex_bytes : List ℕ → List ℕ
hex_bytes [] = []
hex_bytes (b ∷ digest) = hex_char (b / 16) ∷ (hex_char (bit_and b 15) ∷ hex_bytes digest)

-- 32 characters and a zero.
unfoldable pub md5_hex : List ℕ → List ℕ
md5_hex digest = hex_bytes digest ++ (0 ∷ [])
