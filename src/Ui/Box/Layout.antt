-- ===== src/Ui/Box/Layout.antt =====
-- The rows of the boxes of src/ui.rs, as text.
use amt_uefi_boot_app.Ui.Screen.Text.{all_plain, is_plain}
use amt_uefi_boot_app.Prelude.{
  List, ℕ, length, Bool, replicate, take, ◌≡◌, ◌-◌, ◌++◌, min, ◌&&◌, ◌∷◌, suc, arith, [], true,
  length-append, ◌/◌, length-take, length-replicate, refl, zero, ◌+◌,
}
use amt_uefi_boot_app.Ui.Box.{
  top_prints, bottom_prints, sep_prints, blank_prints, line_prints, center_prints, kv_prints,
}

pub data Row : Type 0 where
  top bottom sep blank : Row
  line : List ℕ → Row
  center : List ℕ → Row
  kv : List ℕ → List ℕ → Row

abbrev pub row_prints : Row → ℕ → List (List ℕ)
row_prints top = top_prints
row_prints bottom = bottom_prints
row_prints sep = sep_prints
row_prints blank = blank_prints
row_prints (line text) = line_prints text
row_prints (center text) = center_prints text
row_prints (kv label value) = kv_prints label value

abbrev pub blanks : ℕ → List ℕ
blanks n = replicate n b' '

-- A text cut or filled to a width.
abbrev pub padded : ℕ → List ℕ → List ℕ
padded width text = take width text ++ blanks (width - length text)

abbrev pub centered : ℕ → List ℕ → List ℕ
centered width text =
    let left = (width - min (length text) width) / 2 in
    blanks left ++ (take width text ++ blanks (width - min (length text) width - left))

-- What stands between the walls.
abbrev pub inner : Row → List ℕ
inner top = replicate 60 0x2550
inner bottom = replicate 60 0x2550
inner sep = replicate 60 0x2550
inner blank = blanks 60
inner (line text) = b' ' ∷ (padded 58 text ++ (b' ' ∷ []))
inner (center text) = centered 60 text
inner (kv label value) = b' ' ∷ (padded 20 label ++ (padded 38 value ++ (b' ' ∷ [])))

abbrev pub left_wall : Row → ℕ
left_wall top = 0x2554
left_wall bottom = 0x255A
left_wall sep = 0x2560
left_wall other = 0x2551

abbrev pub right_wall : Row → ℕ
right_wall top = 0x2557
right_wall bottom = 0x255D
right_wall sep = 0x2563
right_wall other = 0x2551

abbrev pub row_text : ℕ → Row → List ℕ
row_text m row = blanks m ++ (left_wall row ∷ (inner row ++ (right_wall row ∷ [])))

-- The texts that the row is made of have no control characters.
abbrev pub is_plain_row : Row → Bool
is_plain_row (line text) = all_plain text
is_plain_row (center text) = all_plain text
is_plain_row (kv label value) = all_plain label && all_plain value
is_plain_row other = true

length-padded : (width : ℕ) (text : List ℕ) → length (padded width text) ≡ width
length-padded width text = omega (
  arith,
  length-append (take width text) (blanks (width - length text)),
  length-take width text,
  length-replicate {A = ℕ} (width - length text) b' ',
)

pub length-inner : (row : Row) → length (inner row) ≡ 60
length-inner top = refl
length-inner bottom = refl
length-inner sep = refl
length-inner blank = refl
length-inner (line text) =
    omega (arith, length-append (padded 58 text) (b' ' ∷ []), length-padded 58 text)
length-inner (center text) =
    let n = 60 - min (length text) 60 in
    let right = blanks (n - n / 2) in
    omega (
      arith,
      length-append (blanks (n / 2)) (take 60 text ++ right),
      length-append (take 60 text) right,
      length-take 60 text,
      length-replicate {A = ℕ} (n / 2) b' ',
      length-replicate {A = ℕ} (n - n / 2) b' ',
    )
length-inner (kv label value) = omega (
  arith,
  length-append (padded 20 label) (padded 38 value ++ (b' ' ∷ [])),
  length-append (padded 38 value) (b' ' ∷ []),
  length-padded 20 label,
  length-padded 38 value,
)

all_plain-join :
    (p q : List ℕ) → all_plain p ≡ true → all_plain q ≡ true → all_plain (p ++ q) ≡ true
all_plain-join [] q a b = b
all_plain-join (x ∷ p) q a b = ground (arith, a, all_plain-join p q (ground (arith, a)) b)

all_plain-replicate : (n ch : ℕ) → is_plain ch ≡ true → all_plain (replicate n ch) ≡ true
all_plain-replicate zero ch h = refl
all_plain-replicate (suc n) ch h = ground (arith, h, all_plain-replicate n ch h)

all_plain-take : (n : ℕ) (text : List ℕ) → all_plain text ≡ true → all_plain (take n text) ≡ true
all_plain-take zero text h = refl
all_plain-take (suc n) [] h = refl
all_plain-take (suc n) (ch ∷ text) h = ground (arith, h, all_plain-take n text (ground (arith, h)))

all_plain-padded :
    (width : ℕ) (text : List ℕ) → all_plain text ≡ true → all_plain (padded width text) ≡ true
all_plain-padded width text h =
    all_plain-join (take width text) (blanks (width - length text)) (all_plain-take width text h)
      (all_plain-replicate (width - length text) b' ' refl)

all_plain-inner : (row : Row) → is_plain_row row ≡ true → all_plain (inner row) ≡ true
all_plain-inner top h = refl
all_plain-inner bottom h = refl
all_plain-inner sep h = refl
all_plain-inner blank h = refl
all_plain-inner (line text) h =
    all_plain-join (padded 58 text) (b' ' ∷ []) (all_plain-padded 58 text h) refl
all_plain-inner (center text) h =
    let n = 60 - min (length text) 60 in
    let right = blanks (n - n / 2) in
    all_plain-join (blanks (n / 2)) (take 60 text ++ right) (all_plain-replicate (n / 2) b' ' refl)
      (all_plain-join (take 60 text) right (all_plain-take 60 text h)
        (all_plain-replicate (n - n / 2) b' ' refl))
all_plain-inner (kv label value) h =
    all_plain-join (padded 20 label) (padded 38 value ++ (b' ' ∷ []))
      (all_plain-padded 20 label (ground (arith, h)))
      (all_plain-join (padded 38 value) (b' ' ∷ []) (all_plain-padded 38 value (ground (arith, h)))
        refl)

is_plain_walls :
    (row : Row) → (is_plain (left_wall row) ≡ true) × (is_plain (right_wall row) ≡ true)
is_plain_walls top = (refl, refl)
is_plain_walls bottom = (refl, refl)
is_plain_walls sep = (refl, refl)
is_plain_walls blank = (refl, refl)
is_plain_walls (line text) = (refl, refl)
is_plain_walls (center text) = (refl, refl)
is_plain_walls (kv label value) = (refl, refl)

pub all_plain-row :
    (m : ℕ) (row : Row) → is_plain_row row ≡ true → all_plain (row_text m row) ≡ true
all_plain-row m row h =
    let (left, right) = is_plain_walls row in
    let rest =
      all_plain-join (inner row) (right_wall row ∷ []) (all_plain-inner row h)
        (ground (arith, right)) in
    all_plain-join (blanks m) (left_wall row ∷ (inner row ++ (right_wall row ∷ [])))
      (all_plain-replicate m b' ' refl) (ground (arith, left, rest))

pub length-row : (m : ℕ) (row : Row) → length (row_text m row) ≡ m + 62
length-row m row = omega (
  arith,
  length-append (blanks m) (left_wall row ∷ (inner row ++ (right_wall row ∷ []))),
  length-append (inner row) (right_wall row ∷ []),
  length-replicate {A = ℕ} m b' ',
  length-inner row,
)
