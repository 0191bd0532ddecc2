-- ===== src/Http/Chunked/Decode.antt =====
-- The decoding of a chunked body in src/http.rs, against the format of RFC 2616.
use amt_uefi_boot_app.Http.Chunked.Format.{Chunk}
use amt_uefi_boot_app.Outcome.{ok, Outcome}
use amt_uefi_boot_app.Prelude.{List, ◌≡◌, ℕ, length, ◌∷◌, ◌++◌, [], take}
use amt_uefi_boot_app.Http.Message.{HttpResponse}

-- What the loop leaves of a response: a text at the start of the body, of which it tells the length.
abbrev Decoded : List ℕ → HttpResponse → Outcome ℕ × HttpResponse → Type 0
Decoded text r out =
    (body : List ℕ) × (length body ≡ 4096)
    × (take (length text) body ≡ text)
    × (out ≡ (ok (length text), record r { body = body }))

abbrev through_chunk : List ℕ → Chunk → List ℕ
through_chunk head c = head ++ (c.size_text ++ (13 ∷ (10 ∷ (c.bytes ++ (13 ∷ (10 ∷ []))))))
