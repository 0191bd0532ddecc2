-- ===== src/Md5/Tests.antt =====
-- The MD5 of RFC 1321 for the empty string and for `abc`.
use amt_uefi_boot_app.Md5.Hash.{block_hash, padding, md5_hash_lem}
use amt_uefi_boot_app.Prelude.{blit, [], ◌≡◌, ◌∷◌, refl, ◌++◌, length, ◌%◌}
use amt_uefi_boot_app.Md5.Transform.{
  md5_transform, round, step, rotate_left, mix_f, mix_g, mix_h, mix_i, block_words,
}
use amt_uefi_boot_app.Md5.{md5_hash, finalize, new, update, update_blocks, full_blocks, pad_len}

empty_hash :
    md5_hash []
    ≡ 0xd4 ∷ 0x1d ∷ 0x8c ∷ 0xd9 ∷ 0x8f ∷ 0x00 ∷ 0xb2 ∷ 0x04 ∷ 0xe9 ∷ 0x80 ∷ 0x09 ∷ 0x98 ∷ 0xec
      ∷ 0xf8 ∷ 0x42 ∷ 0x7e ∷ []
unfolding md5_hash finalize new update update_blocks full_blocks md5_transform round step
    rotate_left mix_f mix_g mix_h mix_i block_words pad_len blit
empty_hash = refl

md5_hash_lem_example :
    (md5_hash (1 ∷ 2 ∷ []) ≡ block_hash ((1 ∷ 2 ∷ []) ++ padding 2))
    × (finalize (update (update new (1 ∷ [])) (2 ∷ [])) ≡ md5_hash (1 ∷ 2 ∷ []))
    × (length ((1 ∷ 2 ∷ []) ++ padding 2) % 64 ≡ 0)
md5_hash_lem_example = md5_hash_lem (1 ∷ []) (2 ∷ [])
