-- ===== src/StrUtil/Append.antt =====
-- Appending to a bounded buffer, and decimal numbers, in src/str_util.rs.

use amt_uefi_boot_app.Prelude.{
  List, blit, ℕ, ◌≤◌, ◌∷◌, ◌++◌, ◌<◌, length, ◌+◌, take, [], ◌≡◌, arith, set, ◌*◌, min, suc,
  length-append, ◌-◌, refl, ◌/◌, zero, Bool-cases, length-take, ap, ap₂, leb, take-append_right,
  ◌∙◌, drop, sym, ◌==◌, inl, ltb, take-append-drop, length-blit, leb→le, take-blit, inr, true,
  take_all, ltb_false→le, lt→ltb, leb_false→lt, append-nil, blit-blit, if◌then◌else◌,
}
use amt_uefi_boot_app.StrUtil.{digits, append_bytes, put_reversed, append_u32}

pub take-min : (k : ℕ) (s : List ℕ) → take (min (length s) k) s ≡ take k s
take-min k s = elim (Bool-cases (leb (length s) k)) [
  | inl e ↦
      ap (λ j. take j s) (omega (arith, leb→le _ _ e))
      ∙ take_all (length s) s (omega arith)
      ∙ sym (take_all k s (leb→le _ _ e))
  | inr e ↦ ap (λ j. take j s) (omega (arith, leb_false→lt _ _ e))
]

-- `append_bytes` is the append of lists, cut at the end of the buffer: the bytes before the new
-- position are those before the old one and then the given ones, as far as the buffer holds them,
-- and the buffer keeps its length.
pub append_bytes_lem :
    (buf s : List ℕ) (pos : ℕ)
    → pos ≤ length buf
    → let r = append_bytes buf pos s in
      (take r.1 r.0 ≡ take (length buf) (take pos buf ++ s))
      × (length r.0 ≡ length buf)
      × (r.1 ≡ min (length buf) (pos + length s))
unfolding append_bytes
append_bytes_lem buf s pos h =
    let room = length buf - pos in
    let copy = min (length s) room in
    let size : length (take copy s) ≡ copy = omega (arith, length-take copy s) in
    let at : length (take pos buf) ≡ pos = omega (arith, length-take pos buf) in
    let cut : take (length buf) (take pos buf ++ s) ≡ take pos buf ++ take copy s =
      take-append_right (length buf) room (take pos buf) s (omega (arith, at))
      ∙ ap (λ ys. take pos buf ++ ys) (sym (take-min room s)) in
    elim (Bool-cases (ltb 0 copy)) [
      | inl e ↦ rw e (
        take-blit buf pos (pos + copy) (take copy s) (omega (arith, size)) (omega (arith, size))
            ∙ sym cut,
        length-blit buf pos (take copy s) (omega (arith, size)),
        omega arith,
      )
      | inr e ↦
          let none_left : copy ≡ 0 = omega (arith, ltb_false→le _ _ e) in
          rw e (
            ap (λ j. take (pos + j) buf) none_left
                ∙ ap (λ j. take j buf) (omega arith)
                ∙ sym (append-nil (take pos buf))
                ∙ ap (λ j. take pos buf ++ take j s) (sym none_left)
                ∙ sym cut,
            refl,
            omega arith,
          )
    ]

-- Reading a decimal number, after `acc`.
abbrev pub read_decimal : List ℕ → ℕ → ℕ
read_decimal [] acc = acc
read_decimal (d ∷ s) acc = read_decimal s (acc * 10 + (d - 48))

abbrev reversed : List ℕ → List ℕ
reversed [] = []
reversed (d ∷ tmp) = reversed tmp ++ (d ∷ [])

length-reversed : (tmp : List ℕ) → length (reversed tmp) ≡ length tmp
length-reversed [] = refl
length-reversed (d ∷ tmp) =
    omega (arith, length-append (reversed tmp) (d ∷ []), length-reversed tmp)

length-digits : (fuel n : ℕ) → length (digits fuel n) ≤ fuel
unfolding digits
length-digits zero n = omega arith
length-digits (suc fuel) n = ground (arith, length-digits fuel (n / 10))

set-blit : (buf : List ℕ) (pos v : ℕ) → pos < length buf → set buf pos v ≡ blit buf pos (v ∷ [])
unfolding blit
set-blit [] pos v h = absurd (omega arith)
set-blit (x ∷ buf) zero v h = refl
set-blit (x ∷ buf) (suc pos) v h =
    let next : suc (pos + 1) ≡ suc pos + 1 = omega arith in
    ap (λ ys. x ∷ ys) (set-blit buf pos v (omega arith))
    ∙ ap (λ k. x ∷ (take pos buf ++ (v ∷ drop k (x ∷ buf)))) next

pub blit-nil : (buf : List ℕ) (pos : ℕ) → blit buf pos [] ≡ buf
unfolding blit
blit-nil buf pos = ap (λ k. take pos buf ++ drop k buf) (omega arith) ∙ take-append-drop pos buf

put_reversed_lem :
    (tmp buf : List ℕ) (pos : ℕ)
    → pos + length tmp ≤ length buf
    → put_reversed tmp buf pos ≡ (blit buf pos (reversed tmp), pos + length tmp)
unfolding put_reversed
put_reversed_lem [] buf pos h = ap₂ (λ b (k : ℕ). (b, k)) (sym (blit-nil buf pos)) (omega arith)
put_reversed_lem (d ∷ tmp) buf pos h =
    let tail = put_reversed_lem tmp buf pos (omega arith) in
    let size = length-reversed tmp in
    let same = length-blit buf pos (reversed tmp) (omega (arith, size)) in
    let at : pos + length tmp ≡ pos + length (reversed tmp) = omega (arith, size) in
    let fits : ltb (pos + length tmp) (length (blit buf pos (reversed tmp))) ≡ true =
      lt→ltb _ _ (omega (arith, same)) in
    let put =
      set-blit (blit buf pos (reversed tmp)) (pos + length tmp) d (omega (arith, same))
      ∙ ap (λ k. blit (blit buf pos (reversed tmp)) k (d ∷ [])) at
      ∙ blit-blit buf pos (reversed tmp) (d ∷ []) (omega (arith, size)) in
    rw (tail, fits) (ap₂ (λ b (k : ℕ). (b, k)) put (omega arith))

-- The decimal text of a number of at most ten digits.
abbrev pub decimal : ℕ → List ℕ
decimal val = if val == 0 then 48 ∷ [] else reversed (digits 10 val)

pub length-decimal : (val : ℕ) → length (decimal val) ≤ 10
length-decimal val = ground (arith, length-reversed (digits 10 val), length-digits 10 val)

pub append_bytes-blit :
    (buf s : List ℕ) (pos : ℕ)
    → pos + length s ≤ length buf
    → append_bytes buf pos s ≡ (blit buf pos s, pos + length s)
unfolding append_bytes
append_bytes-blit buf [] pos h =
    let nothing : min 0 (length buf - pos) ≡ 0 = omega arith in rw (nothing, blit-nil buf pos) refl
append_bytes-blit buf (x ∷ s) pos h =
    let all : min (suc (length s)) (length buf - pos) ≡ suc (length s) = omega arith in
    rw (all, take_all (length s) s (omega arith), lt→ltb 0 (suc (length s)) (omega arith)) refl

-- With room for ten bytes, `append_u32` appends the decimal text.
pub append_u32-decimal :
    (buf : List ℕ) (pos val : ℕ)
    → pos + 10 ≤ length buf
    → append_u32 buf pos val ≡ append_bytes buf pos (decimal val)
unfolding append_u32
append_u32-decimal buf pos val room = elim (Bool-cases (val == 0)) [
  | inl e ↦ rw e refl
  | inr e ↦
      let size = length-reversed (digits 10 val) in
      let few = length-digits 10 val in
      rw e (
        put_reversed_lem (digits 10 val) buf pos (omega (arith, few))
        ∙ ap (λ (k : ℕ). (blit buf pos (reversed (digits 10 val)), k)) (omega (arith, size))
        ∙ sym (append_bytes-blit buf (reversed (digits 10 val)) pos (omega (arith, size, few))))
]
