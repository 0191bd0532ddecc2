-- ===== src/Http/Chunked/Endless.antt =====
-- A chunked body on which src/http.rs never stops.
use amt_uefi_boot_app.StrUtil.Append.{blit-nil}
use amt_uefi_boot_app.Http.Chunked.Step.{with_bytes, chunk_loop_step, copy_chunk_lem}
use amt_uefi_boot_app.Outcome.{waits, ok}
use amt_uefi_boot_app.Prelude.{
  List, ℕ, ◌≡◌, codes, length, ◌^◌, ◌-◌, ◌+◌, ◌<◌, refl, ◌++◌, suc, length-append,
  drop-append_right, arith, ltb, true, lt→ltb, ◌%◌, false, zero, get_or-append_right, ap, ◌∙◌, [],
  subst, sym, slice, take, drop,
}
use amt_uefi_boot_app.Http.Chunked.{chunk_loop, chunk_size, skip_line, hex_value}
use amt_uefi_boot_app.Http.Message.{HttpResponse}

-- The size 2 ^ 64 - 16, whose text has 16 bytes.
abbrev pub endless_size : List ℕ
endless_size = codes "fffffffffffffff0"

endless_size_lem : chunk_size endless_size 0 ≡ (2 ^ 64 - 16, 16)
unfolding chunk_size hex_value
endless_size_lem = refl

-- Behind the text there is no line to skip.
skip_line_end :
    (raw : List ℕ) (src : ℕ) (r : HttpResponse)
    → src ≡ length raw
    → src + 1 < 2 ^ 64
    → skip_line raw src r ≡ (ok src, r)
unfolding skip_line
skip_line_end raw src r h w =
    let next : (src + 1) % 2 ^ 64 ≡ src + 1 = omega arith in
    let past : ltb (src + 1) (length raw) ≡ false = ground (arith, h) in rw (next, past) refl

skip_line_size :
    (head : List ℕ) (r : HttpResponse)
    → length head < 2 ^ 32
    → skip_line (head ++ endless_size) (length head) r ≡ (ok (length head), r)
unfolding skip_line
skip_line_size head r h =
    let raw = head ++ endless_size in
    let size = length-append head endless_size in
    let next : (length head + 1) % 2 ^ 64 ≡ length head + 1 = omega arith in
    let inside : ltb (length head + 1) (length raw) ≡ true = lt→ltb _ _ (omega (arith, size)) in
    let here : ltb (length head) (length raw) ≡ true = lt→ltb _ _ (omega (arith, size)) in
    let digit = get_or-append_right (length head) 0 head endless_size 0 (omega arith) in
    rw (next, inside, here, digit) refl

-- A response that ends in the chunk size fffffffffffffff0, behind fewer than 2 ^ 32 bytes, keeps
-- the loop at the place where the size is read: the sum of
-- the place and the size wraps around to it, and no byte is copied. Whatever stands before, no
-- number of rounds is enough.
pub chunk_loop_endless :
    (fuel : ℕ) (head : List ℕ) (r : HttpResponse)
    → length head < 2 ^ 32
    → chunk_loop fuel (head ++ endless_size) (length head) 0 r ≡ (waits, r)
unfolding chunk_loop
chunk_loop_endless zero head r h = refl
chunk_loop_endless (suc fuel) head r h =
    let raw = head ++ endless_size in
    let size = length-append head endless_size in
    let rest = drop-append_right (length head) 0 head endless_size (omega arith) in
    let read = ap (λ t. chunk_size t 0) rest ∙ endless_size_lem in
    let at_end = skip_line_end raw (length head + 16) r (omega (arith, size)) (omega arith) in
    let kept : with_bytes r 0 [] ≡ r = ap (λ b. record r { body = b }) (blit-nil r.body 0) in
    let around : (length head + 16 + (2 ^ 64 - 16)) % 2 ^ 64 ≡ length head = omega (arith, h) in
    let back =
      subst (λ (n : ℕ). skip_line raw n (with_bytes r 0 []) ≡ (ok (length head), with_bytes r 0 []))
        (sym around) (skip_line_size head (with_bytes r 0 []) h) in
    let none_left : slice raw (length head + 16) (length head + 16 + 0) ≡ [] =
      ap (λ n. take n (drop (length head + 16) raw)) {x = length head + 16 + 0 - (length head + 16)}
        {y = 0} (omega arith) in
    ap (λ m. m r)
      (chunk_loop_step fuel raw (2 ^ 64 - 16) 16 (length head) 0 (omega (arith, size)) (omega arith)
        read (omega arith) (omega arith))
    ∙ copy_chunk_lem raw (2 ^ 64 - 16) 0 (length head + 16) (length head + 16) (length head) 0 [] r
        (chunk_loop fuel raw) at_end (omega (arith, size)) none_left back
    ∙ ap (λ s. chunk_loop fuel raw (length head) 0 s) kept
    ∙ chunk_loop_endless fuel head r h
