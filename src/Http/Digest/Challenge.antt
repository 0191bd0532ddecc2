-- ===== src/Http/Digest/Challenge.antt =====
-- `digest_from_challenge` of src/http.rs.
use amt_uefi_boot_app.StrUtil.{ascii_len}
use amt_uefi_boot_app.StrUtil.Terminated.{
  str, put_text, ascii_len-take, ascii_len-le-length, length-put_text, ascii_len-put_text,
  str-put_text, length-str,
}
use amt_uefi_boot_app.Prelude.{
  ℕ, length, List, ◌≡◌, take, min, ◌<◌, arith, ◌-◌, Bool-cases, length-take, ap, refl, leb, ◌∙◌,
  set, inl, sym, blit, take-take, leb→le, inr, take_all, leb_false→lt,
}
use amt_uefi_boot_app.Http.Message.{copy_str, digest_from_challenge, DigestAuth, HttpResponse}
use amt_uefi_boot_app.Http.Digest.Formula.{IsAuth, EndsIn}

pub record IsSized (auth : DigestAuth) : Type 0 where
  pub username_size : length auth.username ≡ 64
  pub password_size : length auth.password ≡ 64
  pub realm_size : length auth.realm ≡ 128
  pub nonce_size : length auth.nonce ≡ 128
  pub qop_size : length auth.qop ≡ 32
  pub opaque_size : length auth.opaque ≡ 128

take-min-str : (k : ℕ) (s : List ℕ) → take k (str s) ≡ take (min (ascii_len s) k) s
take-min-str k s = elim (Bool-cases (leb k (ascii_len s))) [
  | inl e ↦
      take-take k (ascii_len s) s (leb→le _ _ e) ∙ ap (λ n. take n s) (omega (arith, leb→le _ _ e))
  | inr e ↦
      take_all k (str s) (omega (arith, length-str s, leb_false→lt _ _ e))
      ∙ ap (λ n. take n s) (omega (arith, leb_false→lt _ _ e))
]

module _ (size : ℕ) (dst src : List ℕ) (h : length dst ≡ size) (p : 0 < size) where
  abbrev copied : List ℕ
  copied = take (min (ascii_len src) (length dst - 1)) src

  length-copied : length copied ≡ min (ascii_len src) (length dst - 1)
  length-copied =
      omega (arith, length-take (min (ascii_len src) (length dst - 1)) src, ascii_len-le-length src)

  copied-fits : length copied < length dst
  copied-fits = omega (arith, h, p, length-copied)

  copied-zeros : ascii_len copied ≡ length copied
  copied-zeros =
      ascii_len-take (min (ascii_len src) (length dst - 1)) src (omega arith) ∙ sym length-copied

  copy_str-put_text : copy_str dst src ≡ put_text dst copied
  unfolding copy_str
  copy_str-put_text = ap (λ n. set (blit dst 0 copied) n 0) (sym length-copied)

  -- The copy is a string of the array, cut to one byte less than its size.
  copy_str_lem :
      EndsIn size (copy_str dst src) × (str (copy_str dst src) ≡ take (size - 1) (str src))
  copy_str_lem =
      let fits = copied-fits in
      let cut : copied ≡ take (size - 1) (str src) =
        ap (λ n. take n src) (omega (arith, h)) ∙ sym (take-min-str (size - 1) src) in
      rw copy_str-put_text (
        (
          length-put_text dst copied fits copied-zeros ∙ h,
          omega (arith, ascii_len-put_text dst copied fits copied-zeros, fits, h),
        ),
        str-put_text dst copied fits copied-zeros ∙ cut,
      )

-- The credentials that follow from a challenge, in arrays of the sizes that the source gives: each string is that of the caller or of the
-- challenge, cut to one byte less than its array, and the array ends it; the count starts at zero.
pub digest_from_challenge_lem :
    (auth : DigestAuth) (challenge : HttpResponse) (username password : List ℕ)
    → IsSized auth
    → let a = digest_from_challenge auth challenge username password in
      IsAuth a
      × (str a.username ≡ take 63 (str username))
      × (str a.password ≡ take 63 (str password))
      × (str a.realm ≡ take 127 (str challenge.auth_realm))
      × (str a.nonce ≡ take 127 (str challenge.auth_nonce))
      × (str a.qop ≡ take 31 (str challenge.auth_qop))
      × (str a.opaque ≡ take 127 (str challenge.auth_opaque))
      × (a.nc ≡ 0)
unfolding digest_from_challenge
digest_from_challenge_lem auth challenge username password v =
    let (eu, u) = copy_str_lem 64 auth.username username v.username_size (omega arith) in
    let (ep, p) = copy_str_lem 64 auth.password password v.password_size (omega arith) in
    let (er, r) = copy_str_lem 128 auth.realm challenge.auth_realm v.realm_size (omega arith) in
    let (en, n) = copy_str_lem 128 auth.nonce challenge.auth_nonce v.nonce_size (omega arith) in
    let (eq, q) = copy_str_lem 32 auth.qop challenge.auth_qop v.qop_size (omega arith) in
    let (eo, o) = copy_str_lem 128 auth.opaque challenge.auth_opaque v.opaque_size (omega arith) in
    (
      record {
        username_ends = eu;
        password_ends = ep;
        realm_ends = er;
        nonce_ends = en;
        qop_ends = eq;
        opaque_ends = eo;
      },
      u,
      p,
      r,
      n,
      q,
      o,
      refl,
    )
