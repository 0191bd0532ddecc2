-- ===== src/StrUtil/Terminated.antt =====
-- Strings that a zero byte ends, in src/str_util.rs, and copies of them.
use amt_uefi_boot_app.Prelude.{
  List, ℕ, take, ◌≤◌, length, ◌≡◌, set, arith, suc, ◌<◌, blit, ◌∷◌, length-take, ◌++◌, drop, ap,
  length-set, Bool-cases, ◌∙◌, ◌+◌, [], length-drop, take-set, length-blit, ◌==◌, inl,
  take-append_left, inr, take_all, refl, zero,
}
use amt_uefi_boot_app.StrUtil.{ascii_len}

-- A string up to its zero.
abbrev pub str : List ℕ → List ℕ
str s = take (ascii_len s) s

pub ascii_len-le-length : (s : List ℕ) → ascii_len s ≤ length s
unfolding ascii_len
ascii_len-le-length [] = omega arith
ascii_len-le-length (x ∷ s) = ground (arith, ascii_len-le-length s)

pub length-str : (s : List ℕ) → length (str s) ≡ ascii_len s
length-str s = omega (arith, length-take (ascii_len s) s, ascii_len-le-length s)

-- There is no zero in what a string begins with.
pub ascii_len-take : (k : ℕ) (s : List ℕ) → k ≤ ascii_len s → ascii_len (take k s) ≡ k
unfolding ascii_len
ascii_len-take zero s h = refl
ascii_len-take (suc k) [] h = absurd (omega arith)
ascii_len-take (suc k) (x ∷ s) h = elim (Bool-cases (x == 0)) [
  | inl e ↦ absurd (ground (arith, e))
  | inr e ↦ rw e (ap suc (ascii_len-take k s (ground (arith, e))))
]

ascii_len-set :
    (s r : List ℕ)
    → ascii_len s ≡ length s
    → 0 < length r
    → ascii_len (set (s ++ r) (length s) 0) ≡ length s
unfolding ascii_len
ascii_len-set [] [] h p = absurd (omega arith)
ascii_len-set [] (x ∷ r) h p = refl
ascii_len-set (x ∷ s) r h p = elim (Bool-cases (x == 0)) [
  | inl e ↦ absurd (ground (arith, e))
  | inr e ↦ rw e (ap suc (ascii_len-set s r (ground (arith, e)) p))
]

-- A string that is copied into an array with a zero behind it.
abbrev pub put_text : List ℕ → List ℕ → List ℕ
put_text dst s = set (blit dst 0 s) (length s) 0

module _ (dst s : List ℕ) (fits : length s < length dst) (text : ascii_len s ≡ length s) where
  pub ascii_len-put_text : ascii_len (put_text dst s) ≡ length s
  unfolding blit
  ascii_len-put_text =
      ascii_len-set s (drop (0 + length s) dst) text (omega (arith, length-drop (0 + length s) dst))

  pub str-put_text : str (put_text dst s) ≡ s
  unfolding blit
  str-put_text =
      ap (λ n. take n (put_text dst s)) ascii_len-put_text
      ∙ take-set (length s) (s ++ drop (0 + length s) dst) 0
      ∙ take-append_left (length s) s (drop (0 + length s) dst) (omega arith)
      ∙ take_all (length s) s (omega arith)

  pub length-put_text : length (put_text dst s) ≡ length dst
  length-put_text = length-set (blit dst 0 s) (length s) 0 ∙ length-blit dst 0 s (omega arith)
