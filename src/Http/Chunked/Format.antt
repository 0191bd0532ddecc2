-- ===== src/Http/Chunked/Format.antt =====
-- The chunked format of RFC 2616, and one round of the loop of src/http.rs over it.
use amt_uefi_boot_app.Http.Chunked.Step.{with_bytes, chunk_loop_step, copy_chunk_lem}
use amt_uefi_boot_app.Outcome.{ok}
use amt_uefi_boot_app.Prelude.{
  Option, some, none, List, ◌≡◌, ℕ, length, ◌∷◌, ◌<◌, ◌++◌, ◌+◌, [], ◌^◌, length-append, ◌%◌, arith,
  ltb, true, lt→ltb, get_or-append_right, refl, Option, ◌*◌, suc, ap, ap₂, ◌∙◌, take,
  drop-append_right, subst, append_assoc, min, ◌-◌, slice, drop, take-append_left, take_all, sym,
}
use amt_uefi_boot_app.Http.Chunked.{chunk_loop, chunk_size, skip_line, hex_value, after_digit}
use amt_uefi_boot_app.Http.Message.{HttpResponse}

-- A chunk: the text of its size, and its bytes.
pub record Chunk : Type 0 where
  pub size_text : List ℕ
  pub bytes : List ℕ

-- The text is hexadecimal throughout, and says how many bytes there are.
pub record IsChunk (c : Chunk) : Type 0 where
  pub size_is : chunk_size c.size_text 0 ≡ (length c.bytes, length c.size_text)
  pub not_last : 0 < length c.bytes

abbrev pub AllChunks : List Chunk → Type 0
AllChunks [] = Unit
AllChunks (c ∷ chunks) = IsChunk c × AllChunks chunks

-- The last chunk has the size 0; a trailer may follow.
abbrev pub encode : List Chunk → List ℕ → List ℕ
encode [] trailer = b'0' ∷ (13 ∷ (10 ∷ trailer))
encode (c ∷ chunks) trailer =
    c.size_text ++ (13 ∷ (10 ∷ (c.bytes ++ (13 ∷ (10 ∷ encode chunks trailer)))))

abbrev pub contents : List Chunk → List ℕ
contents [] = []
contents (c ∷ chunks) = c.bytes ++ contents chunks

chunk_size_end : (rest : List ℕ) (acc : ℕ) → chunk_size (13 ∷ rest) acc ≡ (acc, 0)
unfolding chunk_size hex_value
chunk_size_end rest acc = refl

-- Digits that go on to the end of a text stop at the end of the line behind it.
after_digit_lem :
    (f g : ℕ → ℕ × ℕ) (acc n len : ℕ) (digit : Option ℕ)
    → after_digit f acc digit ≡ (n, suc len)
    → ((a : ℕ) → f a ≡ (n, len) → g a ≡ (n, len))
    → after_digit g acc digit ≡ (n, suc len)
after_digit_lem f g acc n len none h more = absurd (omega (arith, ap (λ (p : ℕ × ℕ). p.1) h))
after_digit_lem f g acc n len (some d) h more =
    let a = (acc * 16 + d) % 2 ^ 64 in
    let total = ap (λ (p : ℕ × ℕ). p.0) h in
    let digits : (f a).1 ≡ len = omega (arith, ap (λ (p : ℕ × ℕ). p.1) h) in
    ap (λ (p : ℕ × ℕ). (p.0, suc p.1)) (more a (ap₂ (λ (x y : ℕ). (x, y)) total digits))

pub chunk_size-append :
    (t rest : List ℕ) (acc n : ℕ)
    → chunk_size t acc ≡ (n, length t)
    → chunk_size (t ++ (13 ∷ rest)) acc ≡ (n, length t)
unfolding chunk_size
chunk_size-append [] rest acc n h = chunk_size_end rest acc ∙ h
chunk_size-append (b ∷ t) rest acc n h =
    after_digit_lem (chunk_size t) (chunk_size (t ++ (13 ∷ rest))) acc n (length t) (hex_value b) h
      (λ a k. chunk_size-append t rest a n k)

skip_line_lem :
    (front rest : List ℕ) (src : ℕ) (r : HttpResponse)
    → src ≡ length front
    → length front + 2 < 2 ^ 64
    → skip_line (front ++ (13 ∷ (10 ∷ rest))) src r ≡ (ok (src + 2), r)
unfolding skip_line
skip_line_lem front rest src r h w =
    let raw = front ++ (13 ∷ (10 ∷ rest)) in
    let size = length-append front (13 ∷ (10 ∷ rest)) in
    let next : (src + 1) % 2 ^ 64 ≡ src + 1 = omega arith in
    let inside : ltb (src + 1) (length raw) ≡ true = lt→ltb _ _ (omega (arith, size)) in
    let here : ltb src (length raw) ≡ true = lt→ltb _ _ (omega (arith, size)) in
    let cr = get_or-append_right src 0 front (13 ∷ (10 ∷ rest)) 0 (omega arith) in
    let lf = get_or-append_right (src + 1) 1 front (13 ∷ (10 ∷ rest)) 0 (omega arith) in
    rw (next, inside, here, cr, lf) refl

digits_pos : (t : List ℕ) (n : ℕ) → chunk_size t 0 ≡ (n, length t) → 0 < n → 0 < length t
unfolding chunk_size
digits_pos [] n h p = absurd (omega (arith, ap (λ (q : ℕ × ℕ). q.0) h))
digits_pos (x ∷ t) n h p = omega arith

module _ (head : List ℕ) (c : Chunk) (v : IsChunk c) (rest : List ℕ) (dst : ℕ) (r : HttpResponse)
    (wide : length (head ++ (c.size_text ++ (13 ∷ (10 ∷ (c.bytes ++ (13 ∷ (10 ∷ rest))))))) + 2
      < 2 ^ 32)
    (room : dst + length c.bytes < 4096) where
  abbrev raw : List ℕ
  raw = head ++ (c.size_text ++ (13 ∷ (10 ∷ (c.bytes ++ (13 ∷ (10 ∷ rest))))))

  abbrev digits : ℕ
  digits = length c.size_text

  -- One chunk is copied, and the loop goes on behind its last line end.
  pub round_lem :
      (fuel : ℕ)
      → chunk_loop (suc fuel) raw (length head) dst r
        ≡ chunk_loop fuel raw
            (length head + digits + 2 + length c.bytes + 2)
            (dst + length c.bytes)
            (with_bytes r dst c.bytes)
  round_lem fuel =
      let tail = c.bytes ++ (13 ∷ (10 ∷ rest)) in
      let behind = c.size_text ++ (13 ∷ (10 ∷ tail)) in
      let size = length-append head behind in
      let size' = length-append c.size_text (13 ∷ (10 ∷ tail)) in
      let size'' = length-append c.bytes (13 ∷ (10 ∷ rest)) in
      let at = drop-append_right (length head) 0 head behind (omega arith) in
      let read =
        ap (λ t. chunk_size t 0) at
        ∙ chunk_size-append c.size_text (10 ∷ tail) 0 (length c.bytes) v.size_is in
      let start = length head + digits + 2 in
      let line =
        subst (λ t. skip_line t (length head + digits) r ≡ (ok start, r))
          (append_assoc head c.size_text (13 ∷ (10 ∷ tail)))
          (skip_line_lem (head ++ c.size_text) tail (length head + digits) r
            (omega (arith, length-append head c.size_text))
            (omega (arith, length-append head c.size_text, size, size'))) in
      let count : min (min (length c.bytes) (length raw - start)) (4095 - dst) ≡ length c.bytes =
        omega (arith, size, size', size'') in
      let taken : slice raw start (start + length c.bytes) ≡ c.bytes =
        ap (λ n. take n (drop start raw)) {x = start + length c.bytes - start} {y = length c.bytes}
          (omega arith)
        ∙ ap (take (length c.bytes)) (
            drop-append_right start (digits + 2) head behind (omega arith)
            ∙ drop-append_right (digits + 2) 2 c.size_text (13 ∷ (10 ∷ tail)) (omega arith))
        ∙ take-append_left (length c.bytes) c.bytes (13 ∷ (10 ∷ rest)) (omega arith)
        ∙ take_all (length c.bytes) c.bytes (omega arith) in
      let front = head ++ (c.size_text ++ (13 ∷ (10 ∷ c.bytes))) in
      let front_size : length front ≡ start + length c.bytes = omega (
        arith,
        length-append head (c.size_text ++ (13 ∷ (10 ∷ c.bytes))),
        length-append c.size_text (13 ∷ (10 ∷ c.bytes)),
      ) in
      let whole : front ++ (13 ∷ (10 ∷ rest)) ≡ raw =
        append_assoc head (c.size_text ++ (13 ∷ (10 ∷ c.bytes))) (13 ∷ (10 ∷ rest))
        ∙ ap (λ t. head ++ t) (append_assoc c.size_text (13 ∷ (10 ∷ c.bytes)) (13 ∷ (10 ∷ rest))) in
      let end : (start + length c.bytes) % 2 ^ 64 ≡ start + length c.bytes =
        omega (arith, size, size', size'') in
      let copied = with_bytes r dst c.bytes in
      let after : skip_line raw ((start + length c.bytes) % 2 ^ 64) copied
          ≡ (ok (start + length c.bytes + 2), copied) =
        rw end (
          subst
            (λ t.
              skip_line t (start + length c.bytes) copied
              ≡ (ok (start + length c.bytes + 2), copied))
            whole
            (skip_line_lem front rest (start + length c.bytes) copied (sym front_size)
              (omega (arith, front_size, size, size', size'')))) in
      ap (λ m. m r)
        (chunk_loop_step fuel raw (length c.bytes) digits (length head) dst
          (omega (arith, size, size')) (omega (arith, v.not_last)) read
          (digits_pos c.size_text (length c.bytes) v.size_is v.not_last) v.not_last)
      ∙ copy_chunk_lem raw (length c.bytes) dst (length head + digits) start
          (start + length c.bytes + 2) (length c.bytes) c.bytes r (chunk_loop fuel raw) line count
          taken after
