-- ===== src/Http/Chunked.antt =====
-- The chunked body of a response in src/http.rs. `usize` has 64 bits, and wraps.
pub mod Step
pub mod Format
pub mod Decode
pub mod Endless
use amt_uefi_boot_app.Http.Message.{HttpResponse, http_max_body}
use amt_uefi_boot_app.Prelude.{
  ℕ, List, Option, ◌∷◌, if◌then◌else◌, leb, ltb, suc, ◌&&◌, ◌+◌, min, drop, some, ◌%◌, length, set,
  ◌-◌, ◌^◌, none, blit, ◌==◌, ◌*◌, slice, ◌||◌, get_or, [], zero,
}
use amt_uefi_boot_app.Outcome.{waits, Action, ◌>>=◌, modify, in_bounds, ◌>>◌, pure}

unfoldable pub hex_value : ℕ → Option ℕ
hex_value b =
    if leb b'0' b && leb b b'9'
    then some (b - b'0')
    else if leb b'a' b && leb b b'f'
    then some (b - b'a' + 10)
    else if leb b'A' b && leb b b'F'
    then some (b - b'A' + 10)
    else none

-- What a digit adds to the size, and what follows it.
abbrev pub after_digit : (ℕ → ℕ × ℕ) → ℕ → Option ℕ → ℕ × ℕ
after_digit more size none = (size, 0)
after_digit more size (some d) =
    let (total, digits) = more ((size * 16 + d) % 2 ^ 64) in (total, suc digits)

-- The digits at the start of some bytes: the size after them, from `size` on, and their number.
unfoldable pub chunk_size : List ℕ → ℕ → ℕ × ℕ
chunk_size [] size = (size, 0)
chunk_size (b ∷ bytes) size = after_digit (chunk_size bytes) size (hex_value b)

-- `if src + 1 < raw.len() && raw[src] == b'\r' && raw[src + 1] == b'\n' { src += 2; }`, where the
-- sum wraps and an index out of bounds panics.
unfoldable pub skip_line : List ℕ → ℕ → Action HttpResponse ℕ
skip_line raw src =
    if ltb ((src + 1) % 2 ^ 64) (length raw)
    then in_bounds (ltb src (length raw))
      >> (if get_or raw src 0 == 13 && get_or raw ((src + 1) % 2 ^ 64) 0 == 10
          then pure (src + 2)
          else pure src)
    else pure src

-- One chunk: its size was read up to `src`, and `next` goes on behind it.
unfoldable pub copy_chunk :
    List ℕ → ℕ → ℕ → (ℕ → ℕ → Action HttpResponse ℕ) → ℕ → Action HttpResponse ℕ
copy_chunk raw size dst next src = skip_line raw src >>= λ start.
    let copy_len = min (min size (length raw - start)) (http_max_body - 1 - dst) in
    modify (λ (r : HttpResponse). record r {
      body = blit r.body dst (slice raw start (start + copy_len));
    })
    >> (skip_line raw ((start + size) % 2 ^ 64) >>= λ after. next after (dst + copy_len))

-- The loop over chunks, as many as `fuel` allows; the result is the length of the body.
unfoldable pub chunk_loop : ℕ → List ℕ → ℕ → ℕ → Action HttpResponse ℕ
chunk_loop zero raw src dst = λ r. (waits, r)
chunk_loop (suc fuel) raw src dst =
    let next = chunk_loop fuel raw in
    let (size, digits) = chunk_size (drop src raw) 0 in
    if ltb src (length raw) && ltb dst (http_max_body - 1)
    then if digits == 0 || size == 0 then pure dst else copy_chunk raw size dst next (src + digits)
    else pure dst

unfoldable pub decode_chunked : ℕ → List ℕ → ℕ → Action HttpResponse (Unit {0})
decode_chunked fuel raw body_start = chunk_loop fuel raw body_start 0 >>= λ dst.
    modify (λ (r : HttpResponse). record r { body = set r.body dst 0; body_len = dst })
