-- ===== src/Prelude/Bits.antt =====
-- `&` and `|` with masks and shifted fields, as arithmetic, for every width.
use amt_uefi_boot_app.Prelude.{ap₂}
use Prim.Native.Nat.{ℕ, zero, suc, ◌+◌, ◌-◌, ◌*◌, ◌/◌, ◌%◌, ◌^◌, ◌≤◌, ◌<◌, min, max}
use Prim.Native.Nat.{bit_and, bit_or, digits, bit_and-bitwise, bit_or-bitwise}
use mathlib.Core.Path.{◌≡◌, refl, ap, ◌∙◌, sym}
use native.Mathlib.Nat.{
  pow-suc, one-le-pow, div-div-eq-div-mul, mul-div_cancel, mul-one, div-one, mod-add-div', mod-lt,
  mod-eq_of_lt, add-mul-mod_self_right,
}
use native.Mathlib.Omega.{arith}

module _ (rest : ℕ → ℕ) (pair : ℕ → ℕ → ℕ) where
  digits-zero : (n b : ℕ) → digits rest pair n 0 b ≡ rest b
  digits-zero zero b = refl
  digits-zero (suc n) b = refl

  -- Any count of digits that reaches the first number gives the same.
  digits_settle : (n m a b : ℕ) → a ≤ n → a ≤ m → digits rest pair n a b ≡ digits rest pair m a b
  digits_settle n m zero b p q = rw (digits-zero n b, digits-zero m b)
  digits_settle zero m (suc a) b p q = absurd (omega arith)
  digits_settle (suc n) zero (suc a) b p q = absurd (omega arith)
  digits_settle (suc n) (suc m) (suc a) b p q =
      ap (λ (t : ℕ). t * 2 + pair (suc a % 2) (b % 2))
        (digits_settle n m (suc a / 2) (b / 2) (omega arith) (omega arith))

-- The lowest digit apart from the others.
pub bit_or_digit : (a b : ℕ) → bit_or a b ≡ bit_or (a / 2) (b / 2) * 2 + max (a % 2) (b % 2)
bit_or_digit zero b = omega (arith, bit_or-bitwise 0 b, bit_or-bitwise 0 (b / 2))
bit_or_digit (suc a) b = omega (
  arith,
  bit_or-bitwise (suc a) b,
  bit_or-bitwise (suc a / 2) (b / 2),
  digits_settle (λ x. x) max a (suc a / 2) (suc a / 2) (b / 2) (omega arith) (omega arith),
)

pub bit_and_digit : (a b : ℕ) → bit_and a b ≡ bit_and (a / 2) (b / 2) * 2 + min (a % 2) (b % 2)
bit_and_digit zero b = omega (arith, bit_and-bitwise 0 b, bit_and-bitwise 0 (b / 2))
bit_and_digit (suc a) b = omega (
  arith,
  bit_and-bitwise (suc a) b,
  bit_and-bitwise (suc a / 2) (b / 2),
  digits_settle (λ x. 0) min a (suc a / 2) (suc a / 2) (b / 2) (omega arith) (omega arith),
)

-- A shifted factor, one digit further.
twice_shift : (q k : ℕ) → q * 2 ^ suc k ≡ 2 * (q * 2 ^ k)
twice_shift q k = omega (arith, ap (λ (t : ℕ). q * t) (pow-suc 2 k))

-- `low | (q << k)`, where `low` has `k` bits.
pub bit_or_low : (k low q : ℕ) → low < 2 ^ k → bit_or low (q * 2 ^ k) ≡ low + q * 2 ^ k
bit_or_low zero low q h =
    let z : low ≡ 0 = omega arith in rw z (omega (arith, bit_or-bitwise 0 (q * 1)))
bit_or_low (suc k) low q h = ground (
  arith,
  bit_or_digit low (q * 2 ^ suc k),
  twice_shift q k,
  pow-suc 2 k,
  bit_or_low k (low / 2) q,
)

bit_and_zero : (n a : ℕ) → a ≤ n → bit_and a 0 ≡ 0
bit_and_zero n zero h = omega (arith, bit_and-bitwise 0 0)
bit_and_zero zero (suc a) h = absurd (omega arith)
bit_and_zero (suc n) (suc a) h =
    omega (arith, bit_and_digit (suc a) 0, bit_and_zero n (suc a / 2) (omega arith))

-- The remainder by twice a number, from that of the half.
mod_twice : (a p : ℕ) → 0 < p → a % (2 * p) ≡ a / 2 % p * 2 + a % 2
mod_twice a p pos =
    let r = a / 2 % p in
    let q = a / 2 / p in
    let split : r * 2 + a % 2 + q * (2 * p) ≡ a = omega (arith, mod-add-div' (a / 2) p) in
    let small : r * 2 + a % 2 < 2 * p = omega (arith, mod-lt (a / 2) pos) in
    ap (λ (t : ℕ). t % (2 * p)) (sym split)
    ∙ add-mul-mod_self_right (r * 2 + a % 2) q (2 * p)
    ∙ mod-eq_of_lt small

-- `a & (2^k - 1)`
pub bit_and_mask : (k a : ℕ) → bit_and a (2 ^ k - 1) ≡ a % 2 ^ k
bit_and_mask zero a = omega (arith, bit_and_zero a a (omega arith))
bit_and_mask (suc k) a =
    let half : (2 ^ suc k - 1) / 2 ≡ 2 ^ k - 1 =
      omega (arith, pow-suc 2 k, one-le-pow k 2 (omega arith)) in
    let odd : (2 ^ suc k - 1) % 2 ≡ 1 = omega (arith, pow-suc 2 k, one-le-pow k 2 (omega arith)) in
    let twice : 2 ^ suc k ≡ 2 * 2 ^ k = omega (arith, pow-suc 2 k) in
    bit_and_digit a (2 ^ suc k - 1)
    ∙ rw
        (
          half,
          odd,
          bit_and_mask k (a / 2),
          twice,
          mod_twice a (2 ^ k) (one-le-pow k 2 (omega arith)),
        )
        (omega arith)

-- `(a & (mask << k))` keeps the bits of `mask` at their place.
pub bit_and_shifted : (k a mask : ℕ) → bit_and a (mask * 2 ^ k) ≡ bit_and (a / 2 ^ k) mask * 2 ^ k
bit_and_shifted zero a mask = ap₂ bit_and (sym (div-one a)) (mul-one mask) ∙ omega arith
bit_and_shifted (suc k) a mask =
    let up : a / 2 / 2 ^ k ≡ a / 2 ^ suc k =
      div-div-eq-div-mul a 2 (2 ^ k) ∙ ap (λ (t : ℕ). a / t) (omega (arith, pow-suc 2 k)) in
    let low : bit_and a (mask * 2 ^ suc k) ≡ bit_and (a / 2) (mask * 2 ^ k) * 2 =
      ground (arith, bit_and_digit a (mask * 2 ^ suc k), twice_shift mask k) in
    low
    ∙ rw (bit_and_shifted k (a / 2) mask, up)
        (omega (arith, twice_shift (bit_and (a / 2 ^ suc k) mask) k))

-- `(a & mask) >> k`, for a mask of `w` bits at bit `k`.
pub bit_and_field : (w k a : ℕ) → bit_and a ((2 ^ w - 1) * 2 ^ k) / 2 ^ k ≡ a / 2 ^ k % 2 ^ w
bit_and_field w k a =
    ap (λ (t : ℕ). t / 2 ^ k) (bit_and_shifted k a (2 ^ w - 1))
    ∙ mul-div_cancel (bit_and (a / 2 ^ k) (2 ^ w - 1)) (one-le-pow k 2 (omega arith))
    ∙ bit_and_mask w (a / 2 ^ k)
