-- ===== src/Md5/Hash.antt =====
-- The hash of src/md5.rs as RFC 1321 describes it: the padded message, block by block.

-- What follows a message of `n` bytes: a byte 0x80, zeros up to 8 bytes before the end of a block,
-- then the length in bits in 8 bytes.
use amt_uefi_boot_app.Md5.Stream.{HoldsBytes, update-HoldsBytes, update-count}
use amt_uefi_boot_app.Md5.{pad_len, finalize, new, md5_hash, full_blocks, Md5Ctx, update}
use amt_uefi_boot_app.Md5.Transform.{Words}
use amt_uefi_boot_app.Prelude.{
  ℕ, List, ◌≤◌, ◌<◌, ◌∷◌, ◌+◌, ◌++◌, replicate, length, take, ◌≡◌, suc, [], ◌-◌, ◌/◌, ◌*◌, ◌%◌,
  arith, Bool-cases, ap, refl, ◌^◌, ltb, ◌∙◌, length-append, zero, inl, ap₂, length-replicate, sym,
  ltb→lt, append_assoc, inr, ltb_false→le, le_bytes,
}

abbrev pub padding : ℕ → List ℕ
padding n = 0x80 ∷ (replicate ((119 - n % 64) % 64) 0 ++ le_bytes 8 (n * 8 % 2 ^ 64))

abbrev pub digest_of : Words → List ℕ
digest_of w =
    le_bytes 4 w.word_a ++ (le_bytes 4 w.word_b ++ (le_bytes 4 w.word_c ++ le_bytes 4 w.word_d))

abbrev pub block_hash : List ℕ → List ℕ
block_hash p = digest_of (full_blocks (length p / 64) (new.state) p)

take-replicate : (k m a : ℕ) → k ≤ m → take k (replicate m a) ≡ replicate k a
take-replicate zero m a h = refl
take-replicate (suc k) zero a h = absurd (omega arith)
take-replicate (suc k) (suc m) a h = ap (λ ys. a ∷ ys) (take-replicate k m a (omega arith))

pad_len_lem : (i : ℕ) → i < 64 → pad_len i ≡ suc ((119 - i) % 64)
unfolding pad_len
pad_len_lem i h = elim (Bool-cases (ltb i 56)) [
  | inl e ↦ rw e (omega (arith, ltb→lt _ _ e))
  | inr e ↦ rw e (omega (arith, ltb_false→le _ _ e))
]

pad_bytes :
    (i : ℕ)
    → i < 64
    → take {A = ℕ} (pad_len i) (0x80 ∷ replicate 63 0) ≡ 0x80 ∷ replicate ((119 - i) % 64) 0
pad_bytes i h =
    ap (λ j. take {A = ℕ} j (0x80 ∷ replicate 63 0)) (pad_len_lem i h)
    ∙ ap (λ (ys : List ℕ). 0x80 ∷ ys) (take-replicate ((119 - i) % 64) 63 0 (omega arith))

finalize_lem :
    (c : Md5Ctx) (p : List ℕ)
    → c.count ≡ length p * 8 % 2 ^ 64
    → HoldsBytes c p
    → finalize c ≡ block_hash (p ++ padding (length p))
unfolding finalize
finalize_lem c p n h =
    let pad : List ℕ = take (pad_len (length p % 64)) (0x80 ∷ replicate 63 0) in
    let below : length p % 64 < 64 = omega arith in
    let bits : List ℕ = le_bytes 8 (length p * 8 % 2 ^ 64) in
    let at : c.count / 8 % 64 ≡ length p % 64 = omega (arith, n) in
    let padded = update-HoldsBytes c p pad n h in
    let count = update-count c pad ∙ omega (arith, n, length-append p pad) in
    let ended = update-HoldsBytes (update c pad) (p ++ pad) bits count padded in
    let run : ℕ → ℕ → List ℕ = λ j k.
      digest_of
        ((update (update c (take (pad_len j) (0x80 ∷ replicate 63 0))) (le_bytes 8 k)).state) in
    ap₂ run at n
    ∙ ap digest_of ended.0
    ∙ ap block_hash (append_assoc p pad bits)
    ∙ ap (λ ys. block_hash (p ++ (ys ++ bits))) (pad_bytes (length p % 64) below)

length-padding : (n : ℕ) → (n + length (padding n)) % 64 ≡ 0
length-padding n =
    let k = (119 - n % 64) % 64 in
    omega (
      arith,
      length-append (replicate k 0) (le_bytes 8 (n * 8 % 2 ^ 64)),
      length-replicate {A = ℕ} k 0,
    )

new-HoldsBytes : HoldsBytes new []
unfolding new full_blocks
new-HoldsBytes = (refl, refl, refl)

-- The hash is that of the padded message, whose length is a multiple of 64 bytes, folded block by
-- block, and it does not depend on the pieces in which the message comes.
pub md5_hash_lem :
    (p q : List ℕ)
    → (md5_hash (p ++ q) ≡ block_hash ((p ++ q) ++ padding (length (p ++ q))))
      × (finalize (update (update new p) q) ≡ md5_hash (p ++ q))
      × (length ((p ++ q) ++ padding (length (p ++ q))) % 64 ≡ 0)
unfolding md5_hash new
md5_hash_lem p q =
    let once = update-HoldsBytes new [] p (omega arith) new-HoldsBytes in
    let twice = update-HoldsBytes (update new p) p q (update-count new p ∙ omega arith) once in
    let both =
      finalize_lem (update (update new p) q) (p ++ q)
        (update-count (update new p) q ∙ omega (arith, update-count new p, length-append p q))
        twice in
    let whole =
      finalize_lem (update new (p ++ q)) (p ++ q) (update-count new (p ++ q) ∙ omega arith)
        (update-HoldsBytes new [] (p ++ q) (omega arith) new-HoldsBytes) in
    (
      whole,
      both ∙ sym whole,
      omega (
        arith,
        length-append (p ++ q) (padding (length (p ++ q))),
        length-padding (length (p ++ q)),
      ),
    )
