-- ===== src/Http/Post.antt =====
-- `post_wsman` of src/http.rs, over the session of src/lme/mod.rs. The arrays that are static in
-- the source, and those that its callers own, stand in one state.
use amt_uefi_boot_app.Http.Digest.{Piece, is_set, append_pieces, raw, build_auth_header, number}
pub mod Request
use amt_uefi_boot_app.Lme.Channel.{send, receive, reopen_channel}
use amt_uefi_boot_app.Lme.Transport.{Heci}
use amt_uefi_boot_app.Lme.Session.{Session}
use amt_uefi_boot_app.Http.Message.{HttpResponse, DigestAuth}
use amt_uefi_boot_app.Http.Parse.{parse_response}
use amt_uefi_boot_app.Outcome.{Outcome, Action, ok, ◌>>◌}
use amt_uefi_boot_app.Prelude.{
  ◌∷◌, List, if◌then◌else◌, ℕ, take, codes, replicate, [], length, ◌%◌, ◌^◌, ◌++◌,
}

-- `request` is `REQ_BUF`.
pub record Link (H : Heci) : Type 0 where
  pub session : Session H
  pub request : List ℕ
  pub auth : DigestAuth
  pub response : HttpResponse

abbrev pub put_session :
    (H : Heci) {A : Type 0} → Link H → Outcome A × Session H → Outcome A × Link H
put_session H s (o, t) = (o, record s { session = t })

abbrev pub put_response :
    (H : Heci) {A : Type 0} → Link H → Outcome A × HttpResponse → Outcome A × Link H
put_response H s (o, r) = (o, record s { response = r })

abbrev pub request_pieces : List ℕ → List Piece → List Piece
request_pieces body authorization =
    raw (codes "POST /wsman HTTP/1.1\r\n")
    ∷ raw (codes "Host: 127.0.0.1:16992\r\n")
    ∷ raw (codes "Connection: close\r\n")
    ∷ raw (codes "Content-Type: application/soap+xml; charset=utf-8\r\n")
    ∷ raw (codes "Content-Length: ")
    ∷ number (length body % 2 ^ 32)
    ∷ raw (codes "\r\n")
    ∷ (authorization ++ (raw (codes "\r\n") ∷ raw body ∷ []))

-- The header of `build_auth_header`, in `auth_val`.
unfoldable pub authorization_pieces : DigestAuth → List Piece
authorization_pieces auth =
    let (counted, auth_val, auth_len) = build_auth_header auth (replicate 512 0) in
    if is_set auth.nonce
    then raw (codes "Authorization: ") ∷ raw (take auth_len auth_val) ∷ raw (codes "\r\n") ∷ []
    else []

-- The count goes up with each header that is built.
abbrev pub counted_auth : DigestAuth → DigestAuth
counted_auth auth = if is_set auth.nonce then (build_auth_header auth (replicate 512 0)).0 else auth

-- `fuel` bounds what `raw_recv` hears, and `chunks` the chunks of the answer.
module _ (H : Heci) (fuel chunks : ℕ) where
  abbrev on_session : {A : Type 0} → Action (Session H) A → Action (Link H) A
  on_session m s = put_session H s (m s.session)

  unfoldable pub reopen_if_closed : Action (Link H) (Unit {0})
  reopen_if_closed s =
      if s.session.channel_active then (ok tt, s) else on_session (reopen_channel H fuel) s

  -- From the request on: it is sent, and the answer is received and parsed.
  unfoldable pub exchange : List ℕ → Action (Link H) (Unit {0})
  exchange request =
      reopen_if_closed
      >> (on_session (send H request)
          >> (on_session (receive H fuel) >> λ s.
              put_response H s
                (parse_response chunks s.session.rx_buf s.session.rx_len s.response)))

  -- Every caller gives `Some(auth)`.
  unfoldable pub post_wsman : List ℕ → Action (Link H) (Unit {0})
  post_wsman body s =
      let (req, pos) =
        append_pieces (request_pieces body (authorization_pieces s.auth)) s.request 0 in
      exchange (take pos req) (record s { request = req; auth = counted_auth s.auth })
