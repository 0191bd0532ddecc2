-- ===== src/Md5/Stream.antt =====
-- Hashing in pieces, in src/md5.rs: what a context holds of the bytes that it was given.

use amt_uefi_boot_app.Md5.Transform.{Words, md5_transform}
use amt_uefi_boot_app.Prelude.{
  ℕ, List, ◌≡◌, length, ◌*◌, ◌+◌, ◌/◌, ◌%◌, ◌≤◌, drop, ◌++◌, suc, ap₂, take, length-append, arith,
  drop-append_right, blit, take-append_left, ap, length-drop, take-blit, drop-append_left, ◌∙◌, sym,
  drop-drop, length-blit, refl, zero, ◌<◌, take_all, ◌^◌, drop_all, ◌-◌, Bool-cases, ltb, inr,
  ltb_false→le, inl, leb, leb_false→lt, leb→le, length-take, ltb→lt, subst, append_assoc,
  take-append-drop,
}
use amt_uefi_boot_app.Md5.{full_blocks, Md5Ctx, update_blocks, new, update}

full_blocks-append :
    (n : ℕ) (s : Words) (p q : List ℕ)
    → n * 64 ≤ length p
    → full_blocks n s (p ++ q) ≡ full_blocks n s p
unfolding full_blocks
full_blocks-append zero s p q h = refl
full_blocks-append (suc n) s p q h =
    ap₂ (λ b r. full_blocks n (md5_transform s b) r) (take-append_left 64 p q (omega arith))
      (drop-append_left 64 p q (omega arith))
    ∙ full_blocks-append n (md5_transform s (take 64 p)) (drop 64 p) q
        (omega (arith, length-drop 64 p))

full_blocks-add :
    (n k m : ℕ) (s : Words) (p : List ℕ)
    → m ≡ n + k
    → full_blocks m s p ≡ full_blocks k (full_blocks n s p) (drop (n * 64) p)
unfolding full_blocks
full_blocks-add zero k m s p h =
    let same : m ≡ k = omega arith in
    let start : 0 ≡ 0 * 64 = omega arith in
    ap (λ j. full_blocks j s p) same ∙ ap (λ j. full_blocks k s (drop j p)) start
full_blocks-add (suc n) k zero s p h = absurd (omega arith)
full_blocks-add (suc n) k (suc m) s p h =
    full_blocks-add n k m (md5_transform s (take 64 p)) (drop 64 p) (omega arith)
    ∙ ap (full_blocks k (full_blocks n (md5_transform s (take 64 p)) (drop 64 p)))
        (drop-drop 64 (n * 64) (suc n * 64) p (omega arith))

-- The state of a context after the whole blocks of a message, and the rest of it in the buffer.
abbrev pub HoldsBytes : Md5Ctx → List ℕ → Type 0
HoldsBytes c p =
    (c.state ≡ full_blocks (length p / 64) (new.state) p)
    × (take (length p % 64) c.buffer ≡ drop (length p / 64 * 64) p)
    × (length c.buffer ≡ 64)

update_blocks-HoldsBytes :
    (c : Md5Ctx) (p q : List ℕ)
    → length p % 64 ≡ 0
    → HoldsBytes c p
    → HoldsBytes (update_blocks c q) (p ++ q)
unfolding update_blocks
update_blocks-HoldsBytes c p q z (st, bu, le) =
    let n = length p / 64 in
    let k = length q / 64 in
    let size = length-append p q in
    let cut : drop (n * 64) (p ++ q) ≡ q = drop-append_right (n * 64) 0 p q (omega arith) in
    let left = length-drop (k * 64) q in
    let rest = drop-append_right (length (p ++ q) / 64 * 64) (k * 64) p q (omega (arith, size)) in
    (
      sym (
          full_blocks-add n k (length (p ++ q) / 64) (new.state) (p ++ q) (omega (arith, size))
          ∙ ap₂ (full_blocks k) (full_blocks-append n (new.state) p q (omega arith) ∙ sym st) cut),
      take-blit c.buffer 0 (length (p ++ q) % 64) (drop (k * 64) q) (omega (arith, left, le))
            (omega (arith, left, size))
          ∙ sym rest,
      length-blit c.buffer 0 (drop (k * 64) q) (omega (arith, left, le)) ∙ le,
    )

-- What the buffer holds after bytes that do not go beyond its end.
filled_lem :
    (c : Md5Ctx) (p q : List ℕ)
    → length p % 64 + length q ≤ 64
    → HoldsBytes c p
    → take (length p % 64 + length q) (blit c.buffer (length p % 64) q)
      ≡ drop (length p / 64 * 64) (p ++ q)
filled_lem c p q h (st, bu, le) =
    take-blit c.buffer (length p % 64) (length p % 64 + length q) q (omega (arith, le)) refl
    ∙ ap (λ ys. ys ++ q) bu
    ∙ sym (drop-append_left (length p / 64 * 64) p q (omega arith))

-- A buffer that has become full is one block more.
next_block :
    (c : Md5Ctx) (p q : List ℕ)
    → length p % 64 + length q ≡ 64
    → 0 < length p % 64
    → HoldsBytes c p
    → let filled = blit c.buffer (length p % 64) q in
      HoldsBytes (record c { buffer = filled; state = md5_transform c.state filled }) (p ++ q)
unfolding full_blocks
next_block c p q h pos (st, bu, le) =
    let n = length p / 64 in
    let index = length p % 64 in
    let filled = blit c.buffer index q in
    let size = length-append p q in
    let long = length-blit c.buffer index q (omega (arith, le)) in
    let fill = filled_lem c p q (omega arith) (st, bu, le) in
    let block : filled ≡ take 64 (drop (n * 64) (p ++ q)) =
      sym (take_all 64 filled (omega (arith, long, le)))
      ∙ ap (take 64) (sym (take_all (index + length q) filled (omega (arith, long, le))) ∙ fill) in
    let none_over : length (p ++ q) % 64 ≡ 0 = omega (arith, size) in
    (
      sym (
          full_blocks-add n 1 (length (p ++ q) / 64) (new.state) (p ++ q) (omega (arith, size))
          ∙ ap₂ md5_transform (full_blocks-append n (new.state) p q (omega arith) ∙ sym st)
              (sym block)),
      ap (λ j. take j filled) none_over
          ∙ sym (drop_all (length (p ++ q) / 64 * 64) (p ++ q) (omega (arith, size))),
      long ∙ le,
    )

pub update-count :
    (c : Md5Ctx) (q : List ℕ) → (update c q).count ≡ (c.count + length q * 8) % 2 ^ 64
unfolding update update_blocks
update-count c q = ground arith

pub update-HoldsBytes :
    (c : Md5Ctx) (p q : List ℕ)
    → c.count ≡ length p * 8 % 2 ^ 64
    → HoldsBytes c p
    → HoldsBytes (update c q) (p ++ q)
unfolding update full_blocks
update-HoldsBytes c p q n (st, bu, le) =
    let index = length p % 64 in
    let part = 64 - index in
    let c' = record c { count = (c.count + length q * 8) % 2 ^ 64 } in
    let at : c.count / 8 % 64 ≡ index = omega (arith, n) in
    let size = length-append p q in
    elim (Bool-cases (ltb 0 index)) [
      | inr e ↦
          rw (at, e)
            (update_blocks-HoldsBytes c' p q (omega (arith, ltb_false→le _ _ e)) (st, bu, le))
      | inl e ↦ elim (Bool-cases (leb part (length q))) [
        | inr f ↦
            let few = leb_false→lt _ _ f in
            let fill = filled_lem c p q (omega (arith, few)) (st, bu, le) in
            let sum : length (p ++ q) % 64 ≡ index + length q = omega (arith, size, few) in
            let same : length (p ++ q) / 64 ≡ length p / 64 = omega (arith, size, few) in
            rw (at, e, f)
              (
                st
                    ∙ sym (
                        rw same (full_blocks-append (length p / 64) (new.state) p q (omega arith))),
                rw (sum, same) fill,
                length-blit c.buffer index q (omega (arith, le, few)) ∙ le,
              )
        | inl f ↦
            let piece = take part q in
            let enough = leb→le _ _ f in
            let pl = length-take part q in
            let whole =
              next_block c' p piece (omega (arith, pl, enough, ltb→lt _ _ e)) (ltb→lt _ _ e)
                (st, bu, le) in
            rw (at, e, f)
              (subst
                (HoldsBytes (
                  update_blocks
                    (record c' {
                      buffer = blit c.buffer index piece;
                      state = md5_transform c.state (blit c.buffer index piece);
                    })
                    (drop part q)))
                (append_assoc p piece (drop part q) ∙ ap (λ ys. p ++ ys) (take-append-drop part q))
                (update_blocks-HoldsBytes
                  (record c' {
                    buffer = blit c.buffer index piece;
                    state = md5_transform c.state (blit c.buffer index piece);
                  })
                  (p ++ piece) (drop part q) (omega (arith, pl, enough, length-append p piece))
                  whole))
      ]
    ]
