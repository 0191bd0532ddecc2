-- ===== src/Md5/Transform.antt =====
-- `md5_transform` of src/md5.rs.

-- `state`, or the variables `a`, `b`, `c`, `d` in the order in which a step takes them.
use amt_uefi_boot_app.Prelude.{
  ℕ, List, ◌^◌, bit_or, bit_xor, ◌+◌, ◌∷◌, ◌-◌, bit_and, ◌*◌, ◌%◌, [], ◌/◌, get_or,
}

pub record Words : Type 0 where
  pub word_a : ℕ
  pub word_b : ℕ
  pub word_c : ℕ
  pub word_d : ℕ

abbrev pub not32 : ℕ → ℕ
not32 x = 2 ^ 32 - 1 - x

unfoldable pub mix_f : ℕ → ℕ → ℕ → ℕ
mix_f x y z = bit_or (bit_and x y) (bit_and (not32 x) z)

unfoldable pub mix_g : ℕ → ℕ → ℕ → ℕ
mix_g x y z = bit_or (bit_and x z) (bit_and y (not32 z))

unfoldable pub mix_h : ℕ → ℕ → ℕ → ℕ
mix_h x y z = bit_xor (bit_xor x y) z

unfoldable pub mix_i : ℕ → ℕ → ℕ → ℕ
mix_i x y z = bit_xor y (bit_or x (not32 z))

unfoldable pub rotate_left : ℕ → ℕ → ℕ
rotate_left x n = bit_or (x * 2 ^ n % 2 ^ 32) (x / 2 ^ (32 - n))

-- The word of the block, the constant and the rotation of a step.
pub record Step : Type 0 where
  pub word : ℕ
  pub constant : ℕ
  pub rotation : ℕ

abbrev at : ℕ → ℕ → ℕ → Step
at m t s = record { word = m; constant = t; rotation = s }

-- `step!`. The variables move on by one place, as the next step of the source names them.
unfoldable pub step : (ℕ → ℕ → ℕ → ℕ) → List ℕ → Step → Words → Words
step mix m p w =
    let sum = ((w.word_a + mix w.word_b w.word_c w.word_d) % 2 ^ 32 + get_or m p.word 0) % 2 ^ 32 in
    let turned = rotate_left ((sum + p.constant) % 2 ^ 32) p.rotation in
    record {
      word_a = w.word_d;
      word_b = (turned + w.word_b) % 2 ^ 32;
      word_c = w.word_b;
      word_d = w.word_c;
    }

-- The steps of a round: after each four the variables are back at their places.
unfoldable pub round : (ℕ → ℕ → ℕ → ℕ) → List ℕ → List Step → Words → Words
round mix m [] w = w
round mix m (p ∷ steps) w = round mix m steps (step mix m p w)

abbrev pub steps_f : List Step
steps_f =
    at 0 0xd76aa478 7
    ∷ at 1 0xe8c7b756 12
    ∷ at 2 0x242070db 17
    ∷ at 3 0xc1bdceee 22
    ∷ at 4 0xf57c0faf 7
    ∷ at 5 0x4787c62a 12
    ∷ at 6 0xa8304613 17
    ∷ at 7 0xfd469501 22
    ∷ at 8 0x698098d8 7
    ∷ at 9 0x8b44f7af 12
    ∷ at 10 0xffff5bb1 17
    ∷ at 11 0x895cd7be 22
    ∷ at 12 0x6b901122 7
    ∷ at 13 0xfd987193 12
    ∷ at 14 0xa679438e 17
    ∷ at 15 0x49b40821 22
    ∷ []

abbrev pub steps_g : List Step
steps_g =
    at 1 0xf61e2562 5
    ∷ at 6 0xc040b340 9
    ∷ at 11 0x265e5a51 14
    ∷ at 0 0xe9b6c7aa 20
    ∷ at 5 0xd62f105d 5
    ∷ at 10 0x02441453 9
    ∷ at 15 0xd8a1e681 14
    ∷ at 4 0xe7d3fbc8 20
    ∷ at 9 0x21e1cde6 5
    ∷ at 14 0xc33707d6 9
    ∷ at 3 0xf4d50d87 14
    ∷ at 8 0x455a14ed 20
    ∷ at 13 0xa9e3e905 5
    ∷ at 2 0xfcefa3f8 9
    ∷ at 7 0x676f02d9 14
    ∷ at 12 0x8d2a4c8a 20
    ∷ []

abbrev pub steps_h : List Step
steps_h =
    at 5 0xfffa3942 4
    ∷ at 8 0x8771f681 11
    ∷ at 11 0x6d9d6122 16
    ∷ at 14 0xfde5380c 23
    ∷ at 1 0xa4beea44 4
    ∷ at 4 0x4bdecfa9 11
    ∷ at 7 0xf6bb4b60 16
    ∷ at 10 0xbebfbc70 23
    ∷ at 13 0x289b7ec6 4
    ∷ at 0 0xeaa127fa 11
    ∷ at 3 0xd4ef3085 16
    ∷ at 6 0x04881d05 23
    ∷ at 9 0xd9d4d039 4
    ∷ at 12 0xe6db99e5 11
    ∷ at 15 0x1fa27cf8 16
    ∷ at 2 0xc4ac5665 23
    ∷ []

abbrev pub steps_i : List Step
steps_i =
    at 0 0xf4292244 6
    ∷ at 7 0x432aff97 10
    ∷ at 14 0xab9423a7 15
    ∷ at 5 0xfc93a039 21
    ∷ at 12 0x655b59c3 6
    ∷ at 3 0x8f0ccc92 10
    ∷ at 10 0xffeff47d 15
    ∷ at 1 0x85845dd1 21
    ∷ at 8 0x6fa87e4f 6
    ∷ at 15 0xfe2ce6e0 10
    ∷ at 6 0xa3014314 15
    ∷ at 13 0x4e0811a1 21
    ∷ at 4 0xf7537e82 6
    ∷ at 11 0xbd3af235 10
    ∷ at 2 0x2ad7d2bb 15
    ∷ at 9 0xeb86d391 21
    ∷ []

-- Little-endian words.
unfoldable pub block_words : List ℕ → List ℕ
block_words [] = []
block_words (a ∷ []) = []
block_words (a ∷ (b ∷ [])) = []
block_words (a ∷ (b ∷ (c ∷ []))) = []
block_words (a ∷ (b ∷ (c ∷ (d ∷ rest)))) =
    (a + b * 2 ^ 8 + c * 2 ^ 16 + d * 2 ^ 24) ∷ block_words rest

unfoldable pub md5_transform : Words → List ℕ → Words
md5_transform state block =
    let m = block_words block in
    let w =
      round mix_i m steps_i
        (round mix_h m steps_h (round mix_g m steps_g (round mix_f m steps_f state))) in
    record {
      word_a = (state.word_a + w.word_a) % 2 ^ 32;
      word_b = (state.word_b + w.word_b) % 2 ^ 32;
      word_c = (state.word_c + w.word_c) % 2 ^ 32;
      word_d = (state.word_d + w.word_d) % 2 ^ 32;
    }
