-- ===== src/Http/Digest/Formula.antt =====
-- The digest of RFC 2617 in src/http.rs, and the header that carries it.
use amt_uefi_boot_app.StrUtil.Terminated.{str, length-str}
use amt_uefi_boot_app.Http.Digest.Text.{written_lem}
use amt_uefi_boot_app.Http.Digest.{
  ha1_hex, ha1_pieces, is_set, hex_digest, nc_str, cnonce, written, response_hex, response_pieces,
  ha2_hex, text, byte, raw, Piece,
}
use amt_uefi_boot_app.StrUtil.{ascii_len, append_hex32}
use amt_uefi_boot_app.Prelude.{
  List, length, ℕ, ◌≡◌, ◌∷◌, codes, ◌++◌, if◌then◌else◌, [], ◌≤◌, refl, arith, ap, take, ◌∙◌,
  take-append_left, take_all, length-take, replicate, Bool-cases, length-append_bytes, inl,
  append-nil, inr, ◌<◌, ap₂,
}
use amt_uefi_boot_app.Http.Message.{DigestAuth}
use amt_uefi_boot_app.Md5.{md5_hash, md5_hex, hex_bytes, finalize}

-- A string that ends within an array of `size` bytes.
abbrev pub EndsIn : ℕ → List ℕ → Type 0
EndsIn size field = (length field ≡ size) × (ascii_len field < size)

pub record IsAuth (auth : DigestAuth) : Type 0 where
  pub username_ends : EndsIn 64 auth.username
  pub password_ends : EndsIn 64 auth.password
  pub realm_ends : EndsIn 128 auth.realm
  pub nonce_ends : EndsIn 128 auth.nonce
  pub qop_ends : EndsIn 32 auth.qop
  pub opaque_ends : EndsIn 128 auth.opaque

-- 32 hexadecimal digits.
abbrev pub hash_text : List ℕ → List ℕ
hash_text bytes = hex_bytes (md5_hash bytes)

abbrev pub joined : List ℕ → List (List ℕ) → List ℕ
joined s [] = s
joined s (t ∷ rest) = s ++ (b':' ∷ joined t rest)

abbrev pub ha1_text : DigestAuth → List ℕ
ha1_text auth = hash_text (joined (str auth.username) (str auth.realm ∷ str auth.password ∷ []))

abbrev pub ha2_text : List ℕ
ha2_text = hash_text (codes "POST:/wsman")

-- MD5(HA1:nonce:nc:cnonce:auth:HA2) if the challenge had a qop, else MD5(HA1:nonce:HA2).
abbrev pub response_text : DigestAuth → List ℕ
response_text auth = hash_text (
    joined (ha1_text auth) (
      if is_set auth.qop
      then str auth.nonce ∷ nc_str auth.nc ∷ cnonce ∷ codes "auth" ∷ ha2_text ∷ []
      else str auth.nonce ∷ ha2_text ∷ []))

ascii_len-hex_bytes : (d : List ℕ) → ascii_len (hex_bytes d ++ (0 ∷ [])) ≡ length (hex_bytes d)
unfolding hex_bytes ascii_len
ascii_len-hex_bytes [] = refl
ascii_len-hex_bytes (b ∷ d) = ground (arith, ascii_len-hex_bytes d)

pub str-hex_digest : (bytes : List ℕ) → str (hex_digest bytes) ≡ hash_text bytes
unfolding md5_hex
str-hex_digest bytes =
    let d = md5_hash bytes in
    ap (λ n. take n (hex_bytes d ++ (0 ∷ []))) (ascii_len-hex_bytes d)
    ∙ take-append_left (length (hex_bytes d)) (hex_bytes d) (0 ∷ []) (omega arith)
    ∙ take_all (length (hex_bytes d)) (hex_bytes d) (omega arith)

pub length-hash_text : (bytes : List ℕ) → length (hash_text bytes) ≡ 32
unfolding hex_bytes md5_hash finalize
length-hash_text bytes = refl

length-str_lt : (s : List ℕ) (n : ℕ) → EndsIn n s → length (str s) < n
length-str_lt s n (h, e) = omega (arith, length-str s)

ha1_hex_lem : (auth : DigestAuth) → IsAuth auth → str (ha1_hex auth) ≡ ha1_text auth
unfolding ha1_hex ha1_pieces
ha1_hex_lem auth v =
    let u = length-str_lt auth.username 64 v.username_ends in
    let r = length-str_lt auth.realm 128 v.realm_ends in
    let p = length-str_lt auth.password 64 v.password_ends in
    str-hex_digest (written 256 (ha1_pieces auth))
    ∙ ap hash_text (
        written_lem 256 (ha1_pieces auth) (omega (arith, u, r, p))
          (omega (arith, u, r, p, length-append_bytes))
        ∙ ap (λ ys. str auth.username ++ (b':' ∷ (str auth.realm ++ (b':' ∷ ys))))
            (append-nil (str auth.password)))

length-nc_str : (nc : ℕ) → length (nc_str nc) ≤ 8
unfolding nc_str
length-nc_str nc = omega (arith, length-take 8 (append_hex32 (replicate 9 0) 0 nc).0)

module _ (h1 nonce h2 : List ℕ) where
  abbrev short_pieces : List Piece
  short_pieces = text h1 ∷ byte b':' ∷ text nonce ∷ byte b':' ∷ text h2 ∷ []

  abbrev long_pieces : List ℕ → List Piece
  long_pieces nc =
      text h1
      ∷ byte b':'
      ∷ text nonce
      ∷ byte b':'
      ∷ raw nc
      ∷ byte b':'
      ∷ raw cnonce
      ∷ byte b':'
      ∷ raw (codes "auth")
      ∷ byte b':'
      ∷ text h2
      ∷ []

module _ (h1 nonce h2 : List ℕ) (a : length (str h1) ≡ 32) (n : length (str nonce) < 128)
    (b : length (str h2) ≡ 32) where
  short_response :
      written 512 (short_pieces h1 nonce h2) ≡ joined (str h1) (str nonce ∷ str h2 ∷ [])
  short_response =
      written_lem 512 (short_pieces h1 nonce h2) (omega (arith, a, n, b))
        (omega (arith, a, n, b, length-append_bytes))
      ∙ ap (λ ys. str h1 ++ (b':' ∷ (str nonce ++ (b':' ∷ ys)))) (append-nil (str h2))

  long_response :
      (nc : List ℕ)
      → length nc ≤ 8
      → written 512 (long_pieces h1 nonce h2 nc)
        ≡ joined (str h1) (str nonce ∷ nc ∷ cnonce ∷ codes "auth" ∷ str h2 ∷ [])
  long_response nc c =
      written_lem 512 (long_pieces h1 nonce h2 nc) (omega (arith, a, n, b, c))
        (omega (arith, a, n, b, c, length-append_bytes))
      ∙ ap (λ ys. joined (str h1) (str nonce ∷ nc ∷ cnonce ∷ codes "auth" ∷ ys ∷ []))
          (append-nil (str h2))

-- The response that the header carries is the digest of RFC 2617 over the strings in the
-- fields, whatever they hold, if each ends with a zero inside its array: no buffer cuts any of the texts that are hashed.
pub response_hex_lem :
    (auth : DigestAuth) → IsAuth auth → str (response_hex auth) ≡ response_text auth
unfolding response_hex response_pieces ha2_hex
response_hex_lem auth v =
    let h1 = ha1_hex auth in
    let n = length-str_lt auth.nonce 128 v.nonce_ends in
    let c = length-nc_str auth.nc in
    let ha1 = ha1_hex_lem auth v in
    let ha2 = str-hex_digest (codes "POST:/wsman") in
    let a =
      length-hash_text (joined (str auth.username) (str auth.realm ∷ str auth.password ∷ [])) in
    let b = length-hash_text (codes "POST:/wsman") in
    let a' = ap length ha1 ∙ a in
    let b' = ap length ha2 ∙ b in
    elim (Bool-cases (is_set auth.qop)) [
      | inl e ↦ rw e (
          str-hex_digest (written 512 (long_pieces h1 auth.nonce ha2_hex (nc_str auth.nc)))
          ∙ ap hash_text (
              long_response h1 auth.nonce ha2_hex a' n b' (nc_str auth.nc) c
              ∙ ap₂
                  (λ x y.
                    joined x (str auth.nonce ∷ nc_str auth.nc ∷ cnonce ∷ codes "auth" ∷ y ∷ []))
                  ha1 ha2))
      | inr e ↦ rw e (
          str-hex_digest (written 512 (short_pieces h1 auth.nonce ha2_hex))
          ∙ ap hash_text (
              short_response h1 auth.nonce ha2_hex a' n b'
              ∙ ap₂ (λ x y. joined x (str auth.nonce ∷ y ∷ [])) ha1 ha2))
    ]
