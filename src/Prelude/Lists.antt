-- ===== src/Prelude/Lists.antt =====
-- Byte buffers: lists measured, indexed and cut by native numbers, under the library's names.
use Prim.Native.Nat.{ℕ, zero, suc, ◌+◌, ◌-◌, ◌≤◌, ◌<◌, min}
use mathlib.Core.Path.{◌≡◌, refl, ap, ap₂, sym, ◌∙◌}
use mathlib.Core.List.{List, [], ◌∷◌, ◌++◌, append-nil, append_assoc}
use native.Mathlib.Omega.{arith}

module _ {ℓ} {A : Type ℓ} where
  abbrev pub length : List A → ℕ
  length [] = 0
  length (x ∷ xs) = suc (length xs)

  abbrev pub get_or : List A → ℕ → A → A
  get_or [] i d = d
  get_or (x ∷ xs) zero d = x
  get_or (x ∷ xs) (suc i) d = get_or xs i d

  -- A write out of bounds changes nothing.
  abbrev pub set : List A → ℕ → A → List A
  set [] i v = []
  set (x ∷ xs) zero v = v ∷ xs
  set (x ∷ xs) (suc i) v = x ∷ set xs i v

  abbrev pub take : ℕ → List A → List A
  take zero xs = []
  take (suc n) [] = []
  take (suc n) (x ∷ xs) = x ∷ take n xs

  abbrev pub drop : ℕ → List A → List A
  drop zero xs = xs
  drop (suc n) [] = []
  drop (suc n) (x ∷ xs) = drop n xs

  abbrev pub replicate : ℕ → A → List A
  replicate zero a = []
  replicate (suc n) a = a ∷ replicate n a

  pub length-append : (xs ys : List A) → length (xs ++ ys) ≡ length xs + length ys
  length-append [] ys = omega arith
  length-append (x ∷ xs) ys = omega (arith, length-append xs ys)

  pub length-take : (n : ℕ) (xs : List A) → length (take n xs) ≡ min n (length xs)
  length-take zero xs = omega arith
  length-take (suc n) [] = omega arith
  length-take (suc n) (x ∷ xs) = omega (arith, length-take n xs)

  pub length-drop : (n : ℕ) (xs : List A) → length (drop n xs) ≡ length xs - n
  length-drop zero xs = omega arith
  length-drop (suc n) [] = omega arith
  length-drop (suc n) (x ∷ xs) = omega (arith, length-drop n xs)

  pub length-replicate : (n : ℕ) (a : A) → length (replicate n a) ≡ n
  length-replicate zero a = refl
  length-replicate (suc n) a = ap suc (length-replicate n a)

  pub length-set : (xs : List A) (i : ℕ) (v : A) → length (set xs i v) ≡ length xs
  length-set [] i v = refl
  length-set (x ∷ xs) zero v = refl
  length-set (x ∷ xs) (suc i) v = ap suc (length-set xs i v)

  pub take-append-drop : (n : ℕ) (xs : List A) → take n xs ++ drop n xs ≡ xs
  take-append-drop zero xs = refl
  take-append-drop (suc n) [] = refl
  take-append-drop (suc n) (x ∷ xs) = ap (◌∷◌ x) (take-append-drop n xs)

  pub take_all : (n : ℕ) (xs : List A) → length xs ≤ n → take n xs ≡ xs
  take_all zero [] h = refl
  take_all zero (x ∷ xs) h = absurd (omega arith)
  take_all (suc n) [] h = refl
  take_all (suc n) (x ∷ xs) h = ap (◌∷◌ x) (take_all n xs (omega arith))

  pub drop_all : (n : ℕ) (xs : List A) → length xs ≤ n → drop n xs ≡ []
  drop_all zero [] h = refl
  drop_all zero (x ∷ xs) h = absurd (omega arith)
  drop_all (suc n) [] h = refl
  drop_all (suc n) (x ∷ xs) h = drop_all n xs (omega arith)

  -- A cut inside the first part, and a cut at its end.
  pub take-append_left : (n : ℕ) (xs ys : List A) → n ≤ length xs → take n (xs ++ ys) ≡ take n xs
  take-append_left zero xs ys h = refl
  take-append_left (suc n) [] ys h = absurd (omega arith)
  take-append_left (suc n) (x ∷ xs) ys h = ap (◌∷◌ x) (take-append_left n xs ys (omega arith))

  pub drop-append_left :
      (n : ℕ) (xs ys : List A) → n ≤ length xs → drop n (xs ++ ys) ≡ drop n xs ++ ys
  drop-append_left zero xs ys h = refl
  drop-append_left (suc n) [] ys h = absurd (omega arith)
  drop-append_left (suc n) (x ∷ xs) ys h = drop-append_left n xs ys (omega arith)

  pub take-append_right :
      (n k : ℕ) (xs ys : List A) → n ≡ length xs + k → take n (xs ++ ys) ≡ xs ++ take k ys
  take-append_right n k [] ys h = ap (λ m. take m ys) (omega arith)
  take-append_right zero k (x ∷ xs) ys h = absurd (omega arith)
  take-append_right (suc n) k (x ∷ xs) ys h = ap (◌∷◌ x) (take-append_right n k xs ys (omega arith))

  pub drop-append_right :
      (n k : ℕ) (xs ys : List A) → n ≡ length xs + k → drop n (xs ++ ys) ≡ drop k ys
  drop-append_right n k [] ys h = ap (λ m. drop m ys) (omega arith)
  drop-append_right zero k (x ∷ xs) ys h = absurd (omega arith)
  drop-append_right (suc n) k (x ∷ xs) ys h = drop-append_right n k xs ys (omega arith)

  pub drop-drop : (n m k : ℕ) (xs : List A) → k ≡ n + m → drop m (drop n xs) ≡ drop k xs
  drop-drop zero m k xs h = ap (λ j. drop j xs) (omega arith)
  drop-drop (suc n) zero zero [] h = refl
  drop-drop (suc n) (suc m) zero [] h = refl
  drop-drop (suc n) zero (suc k) [] h = refl
  drop-drop (suc n) (suc m) (suc k) [] h = refl
  drop-drop (suc n) m zero (x ∷ xs) h = absurd (omega arith)
  drop-drop (suc n) m (suc k) (x ∷ xs) h = drop-drop n m k xs (omega arith)

  pub take-take : (n m : ℕ) (xs : List A) → n ≤ m → take n (take m xs) ≡ take n xs
  take-take zero m xs h = refl
  take-take (suc n) zero xs h = absurd (omega arith)
  take-take (suc n) (suc m) [] h = refl
  take-take (suc n) (suc m) (x ∷ xs) h = ap (◌∷◌ x) (take-take n m xs (omega arith))

  pub take-append_take : (n : ℕ) (xs ys : List A) → take n (take n xs ++ ys) ≡ take n (xs ++ ys)
  take-append_take zero xs ys = refl
  take-append_take (suc n) [] ys = refl
  take-append_take (suc n) (x ∷ xs) ys = ap (◌∷◌ x) (take-append_take n xs ys)

  -- `take (n + k)` in two pieces.
  pub take-add : (n k m : ℕ) (xs : List A) → m ≡ n + k → take m xs ≡ take n xs ++ take k (drop n xs)
  take-add zero k m xs h = ap (λ j. take j xs) (omega arith)
  take-add (suc n) zero zero [] h = refl
  take-add (suc n) (suc k) zero [] h = refl
  take-add (suc n) zero (suc m) [] h = refl
  take-add (suc n) (suc k) (suc m) [] h = refl
  take-add (suc n) k zero (x ∷ xs) h = absurd (omega arith)
  take-add (suc n) k (suc m) (x ∷ xs) h = ap (◌∷◌ x) (take-add n k m xs (omega arith))

  -- `&xs[a..b]`, for `a ≤ b ≤ len`.
  abbrev pub slice : List A → ℕ → ℕ → List A
  slice xs a b = take (b - a) (drop a xs)

  -- `buf[pos..pos + src.len()].copy_from_slice(src)`, for a range inside `buf`.
  unfoldable pub blit : List A → ℕ → List A → List A
  blit buf pos src = take pos buf ++ (src ++ drop (pos + length src) buf)

  pub length-blit :
      (buf : List A) (pos : ℕ) (src : List A)
      → pos + length src ≤ length buf
      → length (blit buf pos src) ≡ length buf
  unfolding blit
  length-blit buf pos src h = omega (
    arith,
    length-append (take pos buf) (src ++ drop (pos + length src) buf),
    length-append src (drop (pos + length src) buf),
    length-take pos buf,
    length-drop (pos + length src) buf,
  )

  -- What a copy leaves before its end: the bytes before it, then those copied.
  pub take-blit :
      (buf : List A) (pos n : ℕ) (src : List A)
      → pos + length src ≤ length buf
      → n ≡ pos + length src
      → take n (blit buf pos src) ≡ take pos buf ++ src
  unfolding blit
  take-blit buf pos n src h e =
      take-append_right n (length src) (take pos buf) _ (omega (arith, length-take pos buf))
      ∙ ap (◌++◌ (take pos buf)) (
          take-append_right (length src) 0 src (drop (pos + length src) buf) (omega arith)
          ∙ append-nil src)

  pub get_or-append_right :
      (n k : ℕ) (xs ys : List A) (d : A) → n ≡ length xs + k → get_or (xs ++ ys) n d ≡ get_or ys k d
  get_or-append_right n k [] ys d h = ap (λ j. get_or ys j d) (omega arith)
  get_or-append_right zero k (x ∷ xs) ys d h = absurd (omega arith)
  get_or-append_right (suc n) k (x ∷ xs) ys d h = get_or-append_right n k xs ys d (omega arith)

  pub get_or-set : (xs : List A) (i : ℕ) (v d : A) → i < length xs → get_or (set xs i v) i d ≡ v
  get_or-set [] i v d h = absurd (omega arith)
  get_or-set (x ∷ xs) zero v d h = refl
  get_or-set (x ∷ xs) (suc i) v d h = get_or-set xs i v d (omega arith)

  -- A write at the end of what is taken.
  pub take-set : (i : ℕ) (xs : List A) (v : A) → take i (set xs i v) ≡ take i xs
  take-set zero xs v = refl
  take-set (suc i) [] v = refl
  take-set (suc i) (x ∷ xs) v = ap (◌∷◌ x) (take-set i xs v)

  pub take-set_end :
      (i : ℕ) (xs : List A) (v : A)
      → i < length xs
      → take (suc i) (set xs i v) ≡ take i xs ++ (v ∷ [])
  take-set_end i [] v h = absurd (omega arith)
  take-set_end zero (x ∷ xs) v h = refl
  take-set_end (suc i) (x ∷ xs) v h = ap (◌∷◌ x) (take-set_end i xs v (omega arith))

  -- A copy and then another one right after it are one copy.
  pub blit-blit :
      (buf : List A) (pos : ℕ) (a b : List A)
      → pos + length a + length b ≤ length buf
      → blit (blit buf pos a) (pos + length a) b ≡ blit buf pos (a ++ b)
  unfolding blit
  blit-blit buf pos a b h =
      let n = length a in
      let k = length b in
      let front = take-blit buf pos (pos + n) a (omega arith) refl in
      let at : length (take pos buf) ≡ pos = omega (arith, length-take pos buf) in
      let back =
        drop-append_right (pos + n + k) (n + k) (take pos buf) (a ++ drop (pos + n) buf)
          (omega (arith, at))
        ∙ drop-append_right (n + k) k a (drop (pos + n) buf) refl
        ∙ drop-drop (pos + n) k (pos + length (a ++ b)) buf (omega (arith, length-append a b)) in
      ap₂ (λ xs ys. xs ++ (b ++ ys)) front back
      ∙ append_assoc (take pos buf) a _
      ∙ ap (λ ys. take pos buf ++ ys) (sym (append_assoc a b _))

  pub length-slice : (xs : List A) (a b : ℕ) → a ≤ b → b ≤ length xs → length (slice xs a b) ≡ b - a
  length-slice xs a b h k = omega (arith, length-take (b - a) (drop a xs), length-drop a xs)
