-- ===== src/StrUtil/Find.antt =====
-- What `ascii_find` of src/str_util.rs finds.
use amt_uefi_boot_app.Prelude.{
  ℕ, zero, suc, ◌+◌, ◌-◌, ◌≤◌, ◌<◌, true, false, Option, none, some, List, ◌≡◌, refl, arith, length,
  slice, take, ◌∷◌, ap, Bool-cases, ◌==◌, inl, ltb, [], ap₂, subst, inr, ltb→lt, ==_iff,
  ltb_false→le, same_bytes,
}
use amt_uefi_boot_app.StrUtil.{find_loop, ascii_find, ascii_len}

-- The bytes at position `i` are `needle`.
abbrev pub OccursAt : List ℕ → List ℕ → ℕ → Type 0
OccursAt haystack needle i = slice haystack i (i + length needle) ≡ needle

-- The first occurrence among the positions from `first` up to `last`, or that there is none.
abbrev pub IsFirst : List ℕ → List ℕ → ℕ → ℕ → Option ℕ → Type 0
IsFirst haystack needle first last none =
    (k : ℕ) → first ≤ k → k < last → ¬ OccursAt haystack needle k
IsFirst haystack needle first last (some i) =
    (first ≤ i)
    × (i < last)
    × OccursAt haystack needle i
    × ((k : ℕ) → first ≤ k → k < i → ¬ OccursAt haystack needle k)

pub same_bytes→eq : (xs ys : List ℕ) → same_bytes xs ys ≡ true → xs ≡ ys
same_bytes→eq [] [] h = refl
same_bytes→eq [] (y ∷ ys) h = absurd (ground (arith, h))
same_bytes→eq (x ∷ xs) [] h = absurd (ground (arith, h))
same_bytes→eq (x ∷ xs) (y ∷ ys) h =
    ap₂ (λ a b. a ∷ b) (ground (arith, h)) (same_bytes→eq xs ys (ground (arith, h)))

pub same_bytes_self : (xs : List ℕ) → same_bytes xs xs ≡ true
same_bytes_self [] = refl
same_bytes_self (x ∷ xs) = ground (arith, same_bytes_self xs)

same_bytes-false : (xs ys : List ℕ) → same_bytes xs ys ≡ false → ¬ (xs ≡ ys)
same_bytes-false xs ys h e = ground (arith, h, ap (λ zs. same_bytes xs zs) e, same_bytes_self xs)

-- A position passed over.
none-before :
    (haystack needle : List ℕ) (i last : ℕ)
    → ¬ OccursAt haystack needle i
    → IsFirst haystack needle (suc i) last none
    → IsFirst haystack needle i last none
none-before haystack needle i last n f k a b = elim (Bool-cases (k == i)) [
  | inl e ↦ λ o. n (subst (OccursAt haystack needle) ((==_iff k i).0 e) o)
  | inr e ↦ f k (ground (arith, e)) b
]

IsFirst-before :
    (haystack needle : List ℕ) (i last : ℕ) (r : Option ℕ)
    → ¬ OccursAt haystack needle i
    → IsFirst haystack needle (suc i) last r
    → IsFirst haystack needle i last r
IsFirst-before haystack needle i last none n f = none-before haystack needle i last n f
IsFirst-before haystack needle i last (some j) n (l, m, o, f) =
    (omega arith, m, o, none-before haystack needle i j n f)

find_loop_lem :
    (haystack needle : List ℕ) (left i last : ℕ)
    → last ≡ i + left
    → IsFirst haystack needle i last (find_loop haystack needle left i)
unfolding find_loop
find_loop_lem haystack needle zero i last h = λ k a b. absurd (omega arith)
find_loop_lem haystack needle (suc left) i last h =
    elim (Bool-cases (same_bytes (slice haystack i (i + length needle)) needle)) [
      | inl e ↦ rw e (omega arith, omega arith, same_bytes→eq _ _ e, λ k a b. absurd (omega arith))
      | inr e ↦ rw e (
          IsFirst-before haystack needle i last (find_loop haystack needle left (suc i))
            (same_bytes-false _ _ e)
            (find_loop_lem haystack needle left (suc i) last (omega arith)))
    ]

-- For a needle that is not empty, `ascii_find` gives the first position at which it stands in the
-- haystack, as a whole before the haystack's end, and no position exactly when there is none. Both
-- strings end at their first zero byte.
pub ascii_find_lem :
    (haystack needle : List ℕ)
    → 0 < ascii_len needle
    → IsFirst haystack
        (take (ascii_len needle) needle)
        0
        (suc (ascii_len haystack) - ascii_len needle)
        (ascii_find haystack needle)
unfolding ascii_find
ascii_find_lem haystack needle h =
    let n = ascii_len needle in
    let m = ascii_len haystack in
    let some_byte : (n == 0) ≡ false = ground arith in
    elim (Bool-cases (ltb m n)) [
      | inl e ↦ rw (some_byte, e) (λ k a b. absurd (omega (arith, ltb→lt _ _ e)))
      | inr e ↦
          rw (some_byte, e)
            (find_loop_lem haystack (take n needle) (suc (m - n)) 0 (suc m - n)
              (omega (arith, ltb_false→le _ _ e)))
    ]
