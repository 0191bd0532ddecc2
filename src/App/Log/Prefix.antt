-- ===== src/App/Log/Prefix.antt =====
-- What the log of src/main.rs keeps.
use amt_uefi_boot_app.Prelude.{
  List, ℕ, length, ◌≤◌, ◌<◌, ◌++◌, ◌≡◌, take, length-set, ◌∷◌, arith, subst, min, set, ◌∙◌,
  Bool-cases, [], length-append, sym, suc, ap, ltb, take-append_left, append-nil, inl, take_all,
  ◌+◌, zero, ltb→lt, take-set_end, append_assoc, refl, inr, ltb_false→le,
}
use amt_uefi_boot_app.App.Log.{
  Log, log_buf_size, log_limit, log_trunc_marker, put_log, stamp, write_str,
}

-- `t` was written: the log holds it up to the limit.
pub record HoldsLog (t : List ℕ) (s : Log) : Type 0 where
  pub size : length s.log_buf ≡ log_buf_size
  pub inside : s.log_pos ≤ log_buf_size
  pub counts : min s.log_pos log_limit ≡ min (length t) log_limit
  pub text : take (min s.log_pos log_limit) s.log_buf ≡ take log_limit t

-- A write at the end of what is held or behind it.
take-set_past : (n i : ℕ) (xs : List ℕ) (v : ℕ) → n ≤ i → take n (set xs i v) ≡ take n xs
take-set_past zero i xs v h = refl
take-set_past (suc n) i [] v h = refl
take-set_past (suc n) zero (x ∷ xs) v h = absurd (omega arith)
take-set_past (suc n) (suc i) (x ∷ xs) v h =
    ap (λ ys. x ∷ ys) (take-set_past n i xs v (omega arith))

put_log-HoldsLog_past :
    (t : List ℕ) (m : ℕ) (s : Log)
    → log_limit ≤ s.log_pos
    → s.log_pos < log_buf_size
    → HoldsLog t s
    → HoldsLog t (put_log m s)
put_log-HoldsLog_past t m s past room v = record {
  size = length-set s.log_buf s.log_pos m ∙ v.size;
  inside = omega arith;
  counts = omega (arith, v.counts);
  text =
      ap (λ n. take n (set s.log_buf s.log_pos m)) {x = min (s.log_pos + 1) log_limit}
        {y = min s.log_pos log_limit} (omega arith)
      ∙ take-set_past (min s.log_pos log_limit) s.log_pos s.log_buf m (omega arith)
      ∙ v.text;
}

stamp-HoldsLog :
    (marker t : List ℕ) (s : Log)
    → log_limit ≤ s.log_pos
    → HoldsLog t s
    → HoldsLog t (stamp marker s)
unfolding stamp
stamp-HoldsLog [] t s past v = v
stamp-HoldsLog (m ∷ marker) t s past v = elim (Bool-cases (ltb s.log_pos log_buf_size)) [
  | inl e ↦ rw e (
      stamp-HoldsLog marker t (put_log m s) (omega arith)
        (put_log-HoldsLog_past t m s past (ltb→lt _ _ e) v))
  | inr e ↦ rw e (stamp-HoldsLog marker t s past v)
]

put_log-HoldsLog :
    (t : List ℕ) (b : ℕ) (s : Log)
    → s.log_pos < log_limit
    → HoldsLog t s
    → HoldsLog (t ++ (b ∷ [])) (put_log b s)
put_log-HoldsLog t b s room v =
    let sum = length-append t (b ∷ []) in
    let held : take s.log_pos s.log_buf ≡ t =
      ap (λ n. take n s.log_buf) {x = s.log_pos} {y = min s.log_pos log_limit} (omega arith)
      ∙ v.text
      ∙ take_all log_limit t (omega (arith, v.counts)) in
    record {
      size = length-set s.log_buf s.log_pos b ∙ v.size;
      inside = omega arith;
      counts = omega (arith, sum, v.counts);
      text =
          ap (λ n. take n (set s.log_buf s.log_pos b)) {x = min (s.log_pos + 1) log_limit}
            {y = suc s.log_pos} (omega arith)
          ∙ take-set_end s.log_pos s.log_buf b (omega (arith, v.size))
          ∙ ap (λ xs. xs ++ (b ∷ [])) held
          ∙ sym (take_all log_limit (t ++ (b ∷ [])) (omega (arith, sum, v.counts)));
    }

-- Past the limit, what is written makes no difference.
HoldsLog-more :
    (t more : List ℕ) (s : Log) → log_limit ≤ s.log_pos → HoldsLog t s → HoldsLog (t ++ more) s
HoldsLog-more t more s past v = record {
  size = v.size;
  inside = v.inside;
  counts = omega (arith, length-append t more, v.counts);
  text = v.text ∙ sym (take-append_left log_limit t more (omega (arith, v.counts)));
}

-- Every write keeps the log a record of what was written: the bytes before the limit are those of
-- all writes in their order, cut at the limit, and neither a write nor the marker overwrites them
-- or leaves the buffer.
pub write_str-HoldsLog :
    (bytes t : List ℕ) (s : Log) → HoldsLog t s → HoldsLog (t ++ bytes) (write_str bytes s)
unfolding write_str
write_str-HoldsLog [] t s v = subst (λ x. HoldsLog x s) (sym (append-nil t)) v
write_str-HoldsLog (b ∷ bytes) t s v = elim (Bool-cases (ltb s.log_pos log_limit)) [
  | inl e ↦ rw e (
      subst (λ x. HoldsLog x (write_str bytes (put_log b s))) (append_assoc t (b ∷ []) bytes)
        (write_str-HoldsLog bytes (t ++ (b ∷ [])) (put_log b s)
          (put_log-HoldsLog t b s (ltb→lt _ _ e) v)))
  | inr e ↦
      let past = ltb_false→le _ _ e in
      elim (Bool-cases (ltb s.log_pos log_buf_size)) [
        | inl f ↦
            rw (e, f)
              (stamp-HoldsLog log_trunc_marker (t ++ (b ∷ bytes)) s past
                (HoldsLog-more t (b ∷ bytes) s past v))
        | inr f ↦
            rw (e, f)
              (subst (λ x. HoldsLog x (write_str bytes s)) (append_assoc t (b ∷ []) bytes)
                (write_str-HoldsLog bytes (t ++ (b ∷ [])) s (HoldsLog-more t (b ∷ []) s past v)))
      ]
]
