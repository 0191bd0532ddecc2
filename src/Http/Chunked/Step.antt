-- ===== src/Http/Chunked/Step.antt =====
-- One round of the loop over chunks in src/http.rs.
use amt_uefi_boot_app.Outcome.{Action, ok}
use amt_uefi_boot_app.Prelude.{
  ℕ, List, blit, ◌<◌, ◌≡◌, length, min, ◌-◌, slice, drop, suc, ◌+◌, ltb, ◌%◌, true, ◌^◌, lt→ltb,
  refl, ◌==◌, false, arith,
}
use amt_uefi_boot_app.Http.Chunked.{chunk_loop, chunk_size, skip_line, copy_chunk}
use amt_uefi_boot_app.Http.Message.{HttpResponse, http_max_body}

abbrev pub with_bytes : HttpResponse → ℕ → List ℕ → HttpResponse
with_bytes r dst bytes = record r { body = blit r.body dst bytes }

module _ (raw : List ℕ) (size dst src start after count : ℕ) (bytes : List ℕ)
    (r : HttpResponse) where
  pub copy_chunk_lem :
      (next : ℕ → ℕ → Action HttpResponse ℕ)
      → skip_line raw src r ≡ (ok start, r)
      → min (min size (length raw - start)) (http_max_body - 1 - dst) ≡ count
      → slice raw start (start + count) ≡ bytes
      → skip_line raw ((start + size) % 2 ^ 64) (with_bytes r dst bytes)
        ≡ (ok after, with_bytes r dst bytes)
      → copy_chunk raw size dst next src r ≡ next after (dst + count) (with_bytes r dst bytes)
  unfolding copy_chunk
  copy_chunk_lem next h c b k = rw (h, c, b, k) refl

pub chunk_loop_step :
    (fuel : ℕ) (raw : List ℕ) (size digits src dst : ℕ)
    → src < length raw
    → dst < http_max_body - 1
    → chunk_size (drop src raw) 0 ≡ (size, digits)
    → 0 < digits
    → 0 < size
    → chunk_loop (suc fuel) raw src dst
      ≡ copy_chunk raw size dst (chunk_loop fuel raw) (src + digits)
unfolding chunk_loop
chunk_loop_step fuel raw size digits src dst inside room h p q =
    let a : ltb src (length raw) ≡ true = lt→ltb _ _ inside in
    let b : ltb dst (http_max_body - 1) ≡ true = lt→ltb _ _ room in
    let c : (digits == 0) ≡ false = ground arith in
    let d : (size == 0) ≡ false = ground arith in rw (h, a, b, c, d) refl
