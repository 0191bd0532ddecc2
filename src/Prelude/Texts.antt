-- ===== src/Prelude/Texts.antt =====
-- Byte strings: ASCII literals and little-endian words.
use Prim.Native.Nat.{ℕ, zero, suc, ◌+◌, ◌*◌, ◌/◌, ◌%◌, ◌^◌, ◌<◌}
use Prim.Native.Char.{code}
use Prim.Native.String.{String}
use mathlib.Core.Path.{◌≡◌}
use mathlib.Core.List.{List, [], ◌∷◌, ◌++◌}
use native.Mathlib.Omega.{arith}
use amt_uefi_boot_app.Prelude.Lists.{get_or, length, get_or-append_right, length-append}

abbrev pub codes : String → List ℕ
codes String.[] = []
codes (String.◌∷◌ c s) = code c ∷ codes s

abbrev pub le_bytes : ℕ → ℕ → List ℕ
le_bytes zero x = []
le_bytes (suc n) x = x % 2 ^ 8 ∷ le_bytes n (x / 2 ^ 8)

abbrev pub read_le16 : List ℕ → ℕ → ℕ
read_le16 bytes i = get_or bytes i 0 + get_or bytes (i + 1) 0 * 2 ^ 8

abbrev pub read_le32 : List ℕ → ℕ → ℕ
read_le32 bytes i =
    get_or bytes i 0
    + get_or bytes (i + 1) 0 * 2 ^ 8
    + get_or bytes (i + 2) 0 * 2 ^ 16
    + get_or bytes (i + 3) 0 * 2 ^ 24

-- What is written as a word is read as it.
pub read_le16-le_bytes :
    (x : ℕ) (rest : List ℕ) → x < 2 ^ 16 → read_le16 (le_bytes 2 x ++ rest) 0 ≡ x
read_le16-le_bytes x rest h = omega arith

pub read_le32-le_bytes :
    (x : ℕ) (rest : List ℕ) → x < 2 ^ 32 → read_le32 (le_bytes 4 x ++ rest) 0 ≡ x
read_le32-le_bytes x rest h = omega arith

pub read_le32-append :
    (i : ℕ) (xs ys : List ℕ) → i ≡ length xs → read_le32 (xs ++ ys) i ≡ read_le32 ys 0
read_le32-append i xs ys h = omega (
  arith,
  get_or-append_right i 0 xs ys 0 (omega arith),
  get_or-append_right (i + 1) 1 xs ys 0 (omega arith),
  get_or-append_right (i + 2) 2 xs ys 0 (omega arith),
  get_or-append_right (i + 3) 3 xs ys 0 (omega arith),
)

-- For `omega`, on byte strings.
pub length-append_bytes : (xs ys : List ℕ) → length (xs ++ ys) ≡ length xs + length ys
length-append_bytes = length-append
