-- ===== src/App/Screens/Calm/Suffix.antt =====
-- do_set_dns_suffix of src/main.rs does not panic.
use amt_uefi_boot_app.App.Input.{read_line}
use amt_uefi_boot_app.Ui.Box.{blank_prints}
use amt_uefi_boot_app.Amt.Getters.{get_dns_suffix, max_dns_suffix_len, set_dns_suffix}
use amt_uefi_boot_app.Outcome.Rules.{Calm}
use amt_uefi_boot_app.Amt.Safety.{IsSuffix, commands-Gives}
use amt_uefi_boot_app.Outcome.{
  Error, ◌>>=◌, Outcome, in_bounds, and_then, ok, ◌>>◌, err, panics, waits,
}
use amt_uefi_boot_app.Prelude.{
  List, ℕ, Option, ◌≤◌, length, some, leb, replicate, if◌then◌else◌, ◌≡◌, ltb, arith, ◌∷◌, true,
  none, Bool-cases, [], ◌==◌, false, ◌||◌, inl, take, inr, ◌-◌, length-set, ◌+◌, set, leb_false→lt,
  subst, ◌∙◌, refl,
}
use amt_uefi_boot_app.App.Input.{read_loop}
use amt_uefi_boot_app.App.Machine.{Machine, App, try_ctx, show, mei_of}
use amt_uefi_boot_app.App.Screens.Suffix.{
  suffix_rows, do_set_dns_suffix, set_suffix, new_suffix, current_suffix, input_line, took_line,
  after_line,
}
use amt_uefi_boot_app.App.Screens.Calm.{
  IsCalm, Sound, heading_then, IfSome, IsCalm-then, show_then, done-IsCalm, show-IsCalm, try_then,
  paint_then, if_IsCalm, error_then, end_screen-IsCalm,
}

-- The loop of `read_line` keeps the size of its buffer and counts within it.
read_loop-inside :
    (keys : List ℕ) (len : ℕ) (buf : List ℕ)
    → len ≤ length buf
    → let (o, out) = read_loop keys len buf in
      Calm (λ n. n ≤ length buf) o × (length out ≡ length buf)
unfolding read_loop
read_loop-inside [] len buf l = (tt, refl)
read_loop-inside (code ∷ keys) len buf l = elim (Bool-cases (code == 0x0D || code == 0x0A)) [
  | inl e ↦ rw e (l, refl)
  | inr e ↦ elim (Bool-cases (code == 0x08 || code == 0x7F)) [
    | inl f ↦ rw (e, f) (read_loop-inside keys (len - 1) buf (omega arith))
    | inr f ↦ elim (Bool-cases (ltb code 0x20 || ltb 0x7E code)) [
      | inl g ↦ rw (e, f, g) (read_loop-inside keys len buf l)
      | inr g ↦ elim (Bool-cases (leb (length buf) len)) [
        | inl h ↦ rw (e, f, g, h) (read_loop-inside keys len buf l)
        | inr h ↦
            let size = length-set buf len code in
            let (p, q) =
              read_loop-inside keys (len + 1) (set buf len code)
                (omega (arith, size, leb_false→lt _ _ h)) in
            rw (e, f, g, h)
              (
                subst (λ n. Calm (λ m. m ≤ n) (read_loop keys (len + 1) (set buf len code)).0) size
                    p,
                q ∙ size,
              )
      ]
    ]
  ]
]

module _ {M : Machine} (sound : Sound M) where
  pub inside_then :
      (len : ℕ) (bytes : List ℕ) (m : App M (Unit {0}))
      → len ≤ length bytes
      → IsCalm M m
      → IsCalm M (in_bounds (leb len (length bytes)) >> m)
  inside_then len bytes m l p =
      let inside : leb len (length bytes) ≡ true = ground (arith, l) in rw inside p

  -- `&bytes[..len]` in a row, or nothing or another row for an empty one.
  pub slice-IsCalm :
      (bytes : List ℕ) (len : ℕ) (text other : App M (Unit {0}))
      → len ≤ length bytes
      → IsCalm M text
      → IsCalm M other
      → IsCalm M (if ltb 0 len then in_bounds (leb len (length bytes)) >> text else other)
  slice-IsCalm bytes len text other l p q =
      if_IsCalm M (ltb 0 len) _ _ (inside_then len bytes text l p) q

  current_suffix-IsCalm :
      (cur : Option (List ℕ × ℕ)) → IfSome IsSuffix cur → IsCalm M (current_suffix M cur)
  current_suffix-IsCalm none u = done-IsCalm M tt
  current_suffix-IsCalm (some (cur, len)) u =
      IsCalm-then M _ (λ a. show M (blank_prints ∷ []))
        (slice-IsCalm cur len _ _ (omega (arith, u)) (show-IsCalm M _) (show-IsCalm M _))
        (λ a. show-IsCalm M _)

  new_suffix-IsCalm :
      (cur : Option (List ℕ × ℕ)) → IfSome IsSuffix cur → IsCalm M (new_suffix M cur)
  new_suffix-IsCalm none u = done-IsCalm M tt
  new_suffix-IsCalm (some (cur, len)) u =
      slice-IsCalm cur len _ _ (omega (arith, u)) (show-IsCalm M _) (show-IsCalm M _)

  pub suffix_then :
      {A : Type 0} (k : Option (List ℕ × ℕ) → App M A)
      → ((cur : Option (List ℕ × ℕ)) → IfSome IsSuffix cur → IsCalm M (k cur))
      → IsCalm M (try_ctx M (get_dns_suffix (mei_of M)) >>= k)
  suffix_then k f = try_then M IsSuffix _ k (λ c. (commands-Gives sound.fits [] false c).6) f

  suffix_rows-IsCalm : (result : Option Error) → IsCalm M (suffix_rows M result)
  suffix_rows-IsCalm none = show_then M _ _ (suffix_then _ new_suffix-IsCalm)
  suffix_rows-IsCalm (some e) = show-IsCalm M _

  set_suffix-IsCalm :
      (len : ℕ) (buf : List ℕ) → len ≤ length buf → IsCalm M (set_suffix M (len, buf))
  unfolding set_suffix
  set_suffix-IsCalm len buf l = paint_then M _ _ (
      inside_then len buf _ l (
        error_then M (set_dns_suffix (mei_of M) (take len buf)) _
          (λ c. (commands-Gives sound.fits (take len buf) false c).5)
          λ result. heading_then M _ _ _ (
            IsCalm-then M (suffix_rows M result) _ (suffix_rows-IsCalm result)
              (λ a. end_screen-IsCalm M))))

  input_then :
      (buf : List ℕ) (k : ℕ × List ℕ → App M (Unit {0}))
      → ((len : ℕ) (line : List ℕ) → len ≤ length line → IsCalm M (k (len, line)))
      → IsCalm M (input_line M buf >>= k)
  unfolding IsCalm input_line
  input_then buf k f w = go (read_line w.keys buf) (read_loop-inside w.keys 0 buf (omega arith))
    where
      go :
          (r : Outcome ℕ × List ℕ)
          → Calm (λ n. n ≤ length buf) r.0 × (length r.1 ≡ length buf)
          → Calm (λ _. Unit {0}) (and_then (took_line M w r (after_line M w.keys)) k).0
      go (ok len, line) u = f len line (omega (arith, u)) _
      go (err e, line) u = tt
      go (panics, line) u = u.0
      go (waits, line) u = tt

  pub do_set_dns_suffix-IsCalm : IsCalm M (do_set_dns_suffix M)
  unfolding do_set_dns_suffix
  do_set_dns_suffix-IsCalm = heading_then M _ _ _ (
      suffix_then _ λ cur u.
        IsCalm-then M (current_suffix M cur) _ (current_suffix-IsCalm cur u)
          λ a. show_then M _ _ (input_then (replicate max_dns_suffix_len 0) _ set_suffix-IsCalm))
