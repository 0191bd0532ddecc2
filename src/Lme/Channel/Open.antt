-- ===== src/Lme/Channel/Open.antt =====
-- Opening, writing to and closing a channel.
use amt_uefi_boot_app.Lme.Session.Recv.{ReadsBytes, IsSame, raw_send-IsSame, raw_recv_lem}
use amt_uefi_boot_app.Lme.Process.Data.{content, length-channel_data_bytes, process_data_lem}
use amt_uefi_boot_app.Lme.Process.Total.{SendReturns}
use amt_uefi_boot_app.Outcome.{ok, err, device_error, buffer_too_small}
use amt_uefi_boot_app.Lme.Apf.{
  write_be32, read_be32, apf_channel_open_confirmation, apf_channel_open_failure, apf_channel_close,
}
use amt_uefi_boot_app.Lme.Session.{Session, raw_send, raw_recv}
use amt_uefi_boot_app.Lme.Frames.{channel_open_bytes, channel_data_bytes}
use amt_uefi_boot_app.Prelude.{
  ℕ, ◌≤◌, arith, List, length, ◌≡◌, get_or, if◌then◌else◌, ◌==◌, ◌<◌, false, ◌+◌, leb, ◌∷◌, ◌^◌,
  ◌++◌, [], true, subst, ap,
}
use amt_uefi_boot_app.Lme.Transport.{Heci}
use amt_uefi_boot_app.Lme.Channel.{open_loop, try_channel_open, next_channel, send, close_channel}
use amt_uefi_boot_app.Lme.Process.{process_apf, on_open_confirmation}

-- The session that `try_channel_open` sends its message from.
abbrev pub opening : {H : Heci} → Session H → Session H
opening s = record s { our_channel = next_channel s.our_channel; amt_channel = 0; tx_window = 0 }

pub next_channel_bounds : (n : ℕ) → (1 ≤ next_channel n) × (next_channel n ≤ 31)
unfolding next_channel
next_channel_bounds n = ground arith

module _ {H : Heci} (fuel : ℕ) where
  -- The state in which the answer to CHANNEL_OPEN is processed: after the send and one receive
  -- that both succeed, with `m` as the message.
  pub record Answered (s : Session H) (m : List ℕ) (u : Session H) : Type 0 where
    pub between : Session H
    pub sends :
        raw_send H (channel_open_bytes (next_channel s.our_channel)) (opening s) ≡ (ok tt, between)
    pub answer : raw_recv H fuel 512 between ≡ (ok m, u)

  answered :
      (s u v : Session H) (m : List ℕ) (o : ℕ)
      → Answered s m u
      → process_apf H m u ≡ (ok o, v)
      → try_channel_open H fuel s ≡ (
          if o == apf_channel_open_confirmation
          then (ok tt, v)
          else if o == apf_channel_open_failure
          then (err device_error, v)
          else open_loop H fuel 29 v)
  unfolding try_channel_open open_loop
  answered s u v m o a p = rw (a.sends, a.answer, p)

  process_confirmation :
      (u : Session H) (m : List ℕ)
      → get_or m 0 0 ≡ apf_channel_open_confirmation
      → process_apf H m u ≡ (ok apf_channel_open_confirmation, (on_open_confirmation H m u).1)
  unfolding process_apf on_open_confirmation
  process_confirmation u [] c = absurd (omega arith)
  process_confirmation u (ty ∷ m) c = ground arith

  -- A whole confirmation opens the channel with the numbers and the window that it carries. A
  -- confirmation of fewer than 17 bytes makes `try_channel_open` succeed as well, but it leaves
  -- no channel: the recipient is 0, the window is 0 and the flag is what it was before the call.
  pub try_channel_open_confirmed :
      ReadsBytes H
      → (s u : Session H) (m : List ℕ) → get_or m 0 0 ≡ apf_channel_open_confirmation
      → Answered s m u
      → let (o, v) = try_channel_open H fuel s in
        (o ≡ ok tt)
        × (v.channel_active ≡ (if leb 17 (length m) then true else s.channel_active))
        × (v.our_channel
            ≡ (if leb 17 (length m) then read_be32 m 1 else next_channel s.our_channel))
        × (v.amt_channel ≡ (if leb 17 (length m) then read_be32 m 5 else 0))
        × (v.tx_window ≡ (if leb 17 (length m) then read_be32 m 9 else 0))
  unfolding on_open_confirmation
  try_channel_open_confirmed reads s u m c a =
      let r = answered s u _ m apf_channel_open_confirmation a (process_confirmation u m c) in
      let f : IsSame (opening s) a.between =
        subst (λ q. IsSame (opening s) q.1) a.sends (raw_send-IsSame _ (opening s)) in
      let g : IsSame a.between u =
        subst (λ q. IsSame a.between q.1) a.answer (raw_recv_lem reads fuel 512 a.between).0 in
      ground (
        arith,
        ap (λ q. q.0) r,
        ap (λ q. q.1.channel_active) r,
        ap (λ q. q.1.our_channel) r,
        ap (λ q. q.1.amt_channel) r,
        ap (λ q. q.1.tx_window) r,
        f,
        g,
      )

module _ {H : Heci} (sends : SendReturns H) where
  -- After `close_channel` the channel is closed, and a second call does nothing.
  pub close_channel_twice :
      (s : Session H)
      → let (o, t) = close_channel H s in
        (o ≡ ok tt) × (t.channel_active ≡ false) × (close_channel H t ≡ (ok tt, t))
  unfolding close_channel raw_send
  close_channel_twice s = ground (
    arith,
    sends (H.me_addr s.heci) (H.host_addr s.heci) (apf_channel_close ∷ write_be32 s.amt_channel)
        s.heci,
  )

-- What one session sends, another stores. A payload of up to 2039 bytes goes out as one message,
-- which adds exactly that payload to the receiver's buffer if there is room for it; a longer one
-- is refused, and nothing is sent.
pub send-process_apf :
    (H K : Heci) (s : Session H) (r : Session K) (payload : List ℕ)
    → 0 < length payload
    → length payload < 2 ^ 32
    → r.rx_len + length payload ≤ length r.rx_buf
    → (frame : List ℕ) × (send H payload s
        ≡ (if leb (length payload) 2039 then raw_send H frame s else (err buffer_too_small, s)))
      × (length frame ≡ 9 + length payload)
      × (content (process_apf K frame r).1 ≡ content r ++ payload)
unfolding send
send-process_apf H K s r payload pos small room = (
  channel_data_bytes s.amt_channel payload,
  ground arith,
  length-channel_data_bytes s.amt_channel payload,
  (process_data_lem r s.amt_channel payload pos small room).0,
)
