-- ===== src/Http/Digest/Text.antt =====
-- What the digest authentication of src/http.rs hashes and sends, as text.
use amt_uefi_boot_app.StrUtil.Terminated.{str, length-str}
use amt_uefi_boot_app.StrUtil.Append.{append_bytes_lem, decimal, append_u32-decimal}
use amt_uefi_boot_app.StrUtil.{ascii_len, ascii_append, append_bytes}
use amt_uefi_boot_app.Http.Digest.{
  Piece, raw, text, byte, append_piece, append_pieces, written, number,
}
use amt_uefi_boot_app.Prelude.{
  ℕ, List, take, ◌∷◌, ◌≤◌, length, ◌++◌, ◌≡◌, arith, ◌+◌, [], min, length-append, ◌<◌, ◌∙◌, ap,
  take-append_take, ◌-◌, set, take-take, suc, subst, replicate, take-set_end, sym, refl, take_all,
  append-nil, length-set, append_assoc, length-replicate,
}

abbrev pub piece_text : Piece → List ℕ
piece_text (raw s) = s
piece_text (text s) = str s
piece_text (byte b) = b ∷ []
piece_text (number n) = decimal n

abbrev pub pieces_text : List Piece → List ℕ
pieces_text [] = []
pieces_text (p ∷ pieces) = piece_text p ++ pieces_text pieces

pub pieces_text-append : (p q : List Piece) → pieces_text (p ++ q) ≡ pieces_text p ++ pieces_text q
pieces_text-append [] q = refl
pieces_text-append (x ∷ p) q =
    ap (λ t. piece_text x ++ t) (pieces_text-append p q)
    ∙ sym (append_assoc (piece_text x) (pieces_text p) (pieces_text q))

-- A byte that is written by index needs a place in the buffer, and a number ten.
abbrev pub HasRoom : ℕ → ℕ → List Piece → Type 0
HasRoom size n [] = Unit
HasRoom size n (raw s ∷ pieces) = HasRoom size (n + length s) pieces
HasRoom size n (text s ∷ pieces) = HasRoom size (n + length (str s)) pieces
HasRoom size n (byte b ∷ pieces) = (n < size) × HasRoom size (n + 1) pieces
HasRoom size n (number m ∷ pieces) = (n + 10 ≤ size) × HasRoom size (n + length (decimal m)) pieces

abbrev PieceFits : ℕ → ℕ → Piece → Type 0
PieceFits size n (raw s) = Unit
PieceFits size n (text s) = Unit
PieceFits size n (byte b) = n < size
PieceFits size n (number m) = n + 10 ≤ size

-- The buffer holds `t` as far as it goes.
abbrev pub HoldsText : ℕ → List ℕ → List ℕ × ℕ → Type 0
HoldsText size t (buf, pos) =
    (take pos buf ≡ take size t) × (length buf ≡ size) × (pos ≡ min size (length t))

append_bytes-HoldsText :
    (size : ℕ) (t s buf : List ℕ) (pos : ℕ)
    → HoldsText size t (buf, pos)
    → HoldsText size (t ++ s) (append_bytes buf pos s)
append_bytes-HoldsText size t s buf pos (h, l, p) =
    let (cut, kept, at) = append_bytes_lem buf s pos (omega arith) in
    let sum = length-append t s in
    let joined : take size (take pos buf ++ s) ≡ take size (t ++ s) =
      ap (λ xs. take size (xs ++ s)) h ∙ take-append_take size t s in
    (cut ∙ ap (λ n. take n (take pos buf ++ s)) l ∙ joined, kept ∙ l, omega (arith, at, sum))

-- `ascii_append` appends the string.
ascii_append-eq : (buf s : List ℕ) (pos : ℕ) → ascii_append buf pos s ≡ append_bytes buf pos (str s)
unfolding ascii_append append_bytes
ascii_append-eq buf s pos =
    let n = min (ascii_len s) (length buf - pos) in
    let inner : take n (str s) ≡ take n s = take-take n (ascii_len s) s (omega arith) in
    rw (length-str s, inner) refl

set-HoldsText :
    (size b : ℕ) (t buf : List ℕ) (pos : ℕ)
    → length t < size
    → HoldsText size t (buf, pos)
    → HoldsText size (t ++ (b ∷ [])) (set buf pos b, pos + 1)
set-HoldsText size b t buf pos f (h, l, p) =
    let sum = length-append t (b ∷ []) in
    (
      ap (λ n. take n (set buf pos b)) {x = pos + 1} {y = suc pos} (omega arith)
          ∙ take-set_end pos buf b (omega arith)
          ∙ ap (λ xs. xs ++ (b ∷ [])) (h ∙ take_all size t (omega arith))
          ∙ sym (take_all size (t ++ (b ∷ [])) (omega (arith, sum))),
      length-set buf pos b ∙ l,
      omega (arith, sum),
    )

append_piece-HoldsText :
    (size : ℕ) (t buf : List ℕ) (pos : ℕ) (p : Piece)
    → PieceFits size (length t) p
    → HoldsText size t (buf, pos)
    → HoldsText size (t ++ piece_text p) (append_piece buf pos p)
unfolding append_piece
append_piece-HoldsText size t buf pos (raw s) f h = append_bytes-HoldsText size t s buf pos h
append_piece-HoldsText size t buf pos (text s) f h =
    rw (ascii_append-eq buf s pos) (append_bytes-HoldsText size t (str s) buf pos h)
append_piece-HoldsText size t buf pos (byte b) f h = set-HoldsText size b t buf pos f h
append_piece-HoldsText size t buf pos (number n) f (h, l, p) =
    rw (append_u32-decimal buf pos n (omega (arith, f)))
      (append_bytes-HoldsText size t (decimal n) buf pos (h, l, p))

piece_room :
    (size n : ℕ) (p : Piece) (pieces : List Piece)
    → HasRoom size n (p ∷ pieces)
    → PieceFits size n p × HasRoom size (n + length (piece_text p)) pieces
piece_room size n (raw s) pieces h = (tt, h)
piece_room size n (text s) pieces h = (tt, h)
piece_room size n (byte b) pieces h = h
piece_room size n (number m) pieces h = h

pub append_pieces-HoldsText :
    (pieces : List Piece) (size : ℕ) (t buf : List ℕ) (pos : ℕ)
    → HasRoom size (length t) pieces
    → HoldsText size t (buf, pos)
    → HoldsText size (t ++ pieces_text pieces) (append_pieces pieces buf pos)
unfolding append_pieces
append_pieces-HoldsText [] size t buf pos f h =
    subst (λ xs. HoldsText size xs (buf, pos)) (sym (append-nil t)) h
append_pieces-HoldsText (p ∷ pieces) size t buf pos f h =
    let (fits, room) = piece_room size (length t) p pieces f in
    let out = append_piece buf pos p in
    let step = append_piece-HoldsText size t buf pos p fits h in
    let size' : length t + length (piece_text p) ≡ length (t ++ piece_text p) =
      sym (length-append t (piece_text p)) in
    subst (λ xs. HoldsText size xs (append_pieces pieces out.0 out.1))
      (append_assoc t (piece_text p) (pieces_text pieces))
      (append_pieces-HoldsText pieces size (t ++ piece_text p) out.0 out.1
        (subst (λ n. HasRoom size n pieces) size' room) step)

-- Where every index is inside and the text fits, the buffer holds the text.
pub written_lem :
    (size : ℕ) (pieces : List Piece)
    → HasRoom size 0 pieces
    → length (pieces_text pieces) ≤ size
    → written size pieces ≡ pieces_text pieces
unfolding written
written_lem size pieces f h =
    (append_pieces-HoldsText pieces size [] (replicate size 0) 0 f
      (sym (take_all size [] (omega arith)), length-replicate size 0, omega arith)).0
    ∙ take_all size (pieces_text pieces) h
