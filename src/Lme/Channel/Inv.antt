-- ===== src/Lme/Channel/Inv.antt =====
-- The invariant of a session through every call of src/lme/mod.rs.
use amt_uefi_boot_app.Lme.Frames.{protocol_version_bytes, channel_data_bytes}
use amt_uefi_boot_app.Lme.Apf.{apf_protocolversion, lme_uuid}
use amt_uefi_boot_app.Outcome.{Action, and_then, Error, ◌>>◌, aborted}
use amt_uefi_boot_app.Lme.Session.{Session, raw_recv, raw_send, on_heci, send_flow_control}
use amt_uefi_boot_app.Prelude.{ℕ, Bool, arith, List, ◌||◌, zero, ◌==◌, ◌+◌, length-replicate, false}
use amt_uefi_boot_app.Lme.Transport.{Heci}
use amt_uefi_boot_app.Lme.Channel.{
  handshake_loop, apf_handshake, init, open_loop, try_channel_open, reconnect_lme, after_open,
  channel_open, reopen_channel, received, receive_loop, receive, send, close_channel, close,
  next_channel, Heci, ℕ, Session, Action, Bool, raw_recv, List, suc, apf_protocolversion, raw_send,
  on_heci, protocol_version_bytes, Error, channel_data_bytes, false, send_flow_control,
}
use amt_uefi_boot_app.Prelude.{◌==◌}
use amt_uefi_boot_app.Lme.Process.{process_apf}
use amt_uefi_boot_app.Lme.Process.Inv.{IsValid, process_apf-IsValid}
use amt_uefi_boot_app.Lme.Session.Recv.{
  IsBytes, ReadsBytes, IsSame, raw_recv_lem, raw_send-IsSame, send_flow_control-IsSame,
}
use amt_uefi_boot_app.Outcome.Rules.{OkIs-any, and_then_keeps, on_result_keeps}

module _ {H : Heci} (reads : ReadsBytes H) (fuel : ℕ) where
  IsSame-IsValid : (s t : Session H) → IsSame s t → IsValid H s → IsValid H t
  IsSame-IsValid s t e v = ground arith

  recv_keeps : (size : ℕ) (s : Session H) → IsValid H s → IsValid H (raw_recv H fuel size s).1
  recv_keeps size s v = IsSame-IsValid s _ (raw_recv_lem reads fuel size s).0 v

  -- A message is received and processed, and then `k` goes on.
  heard_keeps :
      {B : Type 0} (k : ℕ → Action (Session H) B)
      → ((n : ℕ) (t : Session H) → IsValid H t → IsValid H (k n t).1)
      → (m : List ℕ) (s : Session H) → IsValid H s
      → IsBytes m
      → IsValid H (and_then (process_apf H m s) k).1
  heard_keeps k f m s v b =
      and_then_keeps (IsValid H) (λ _. Unit {0}) k (process_apf H m s) (process_apf-IsValid s v m b)
        (OkIs-any _) (λ n t w _. f n t w)

  handshake_loop-IsValid :
      (n : ℕ) (seen : Bool) (c : ℕ) (s : Session H)
      → IsValid H s
      → IsValid H (handshake_loop H fuel n seen c s).1
  unfolding handshake_loop
  handshake_loop-IsValid zero seen c s v = v
  handshake_loop-IsValid (suc n) seen c s v =
      on_result_keeps (IsValid H) IsBytes _ _ (raw_recv H fuel 512 s) (recv_keeps 512 s v)
        (raw_recv_lem reads fuel 512 s).1
        (λ m t w b.
          heard_keeps _
            (λ ty u x.
              ground
                (arith, x, handshake_loop-IsValid n (seen || (ty == apf_protocolversion)) 0 u x))
            m t w b)
        (λ e t w. ground (arith, w, handshake_loop-IsValid n seen (c + 1) t w))

  open_loop-IsValid : (n : ℕ) (s : Session H) → IsValid H s → IsValid H (open_loop H fuel n s).1
  unfolding open_loop
  open_loop-IsValid zero s v = v
  open_loop-IsValid (suc n) s v =
      and_then_keeps (IsValid H) IsBytes _ (raw_recv H fuel 512 s) (recv_keeps 512 s v)
        (raw_recv_lem reads fuel 512 s).1
        (λ m t w b. heard_keeps _ (λ ty u x. ground (arith, x, open_loop-IsValid n u x)) m t w b)

  receive_loop-IsValid :
      (n : ℕ) (s : Session H) → IsValid H s → IsValid H (receive_loop H fuel n s).1
  unfolding receive_loop received
  receive_loop-IsValid zero s v = ground arith
  receive_loop-IsValid (suc n) s v =
      on_result_keeps (IsValid H) IsBytes _ _ (raw_recv H fuel 2048 s) (recv_keeps 2048 s v)
        (raw_recv_lem reads fuel 2048 s).1
        (λ m t w b. heard_keeps _ (λ ty u x. ground (arith, x, receive_loop-IsValid n u x)) m t w b)
        (λ e t w. ground (arith, w))

  -- Sending a message, and then `k`.
  sent_keeps :
      {B : Type 0} (k : Action (Session H) B) (m : List ℕ) (s : Session H)
      → IsValid H s
      → ((t : Session H) → IsValid H t → IsValid H (k t).1)
      → IsValid H ((raw_send H m >> k) s).1
  sent_keeps k m s v f =
      and_then_keeps (IsValid H) (λ _. Unit {0}) (λ _. k) (raw_send H m s)
        (IsSame-IsValid s _ (raw_send-IsSame m s) v) (OkIs-any _) (λ _ t w _. f t w)

  -- A call of the context, and then `k`.
  heci_keeps :
      {B : Type 0} (k : Action (Session H) B) (m : Action H.Ctx (Unit {0})) (s : Session H)
      → IsValid H s
      → ((t : Session H) → IsValid H t → IsValid H (k t).1)
      → IsValid H ((on_heci H m >> k) s).1
  heci_keeps k m s v f =
      and_then_keeps (IsValid H) (λ _. Unit {0}) (λ _. k) (on_heci H m s) (ground arith)
        (OkIs-any _) (λ _ t w _. f t w)

  apf_handshake-IsValid : (s : Session H) → IsValid H s → IsValid H (apf_handshake H fuel s).1
  unfolding apf_handshake
  apf_handshake-IsValid s v = sent_keeps _ protocol_version_bytes s v λ t w.
      and_then_keeps (IsValid H) (λ _. Unit {0}) _ (handshake_loop H fuel 40 false 0 t)
        (handshake_loop-IsValid 40 false 0 t w) (OkIs-any _) (λ seen u x _. ground (arith, x))

  try_channel_open-IsValid : (s : Session H) → IsValid H s → IsValid H (try_channel_open H fuel s).1
  unfolding try_channel_open next_channel
  try_channel_open-IsValid s v =
      sent_keeps (open_loop H fuel 30) _ _ (ground arith) (λ t w. open_loop-IsValid 30 t w)

  -- Connecting to the LME client, granting it a credit, and the handshake.
  connect_keeps :
      (s : Session H)
      → IsValid H s
      → IsValid H
          ((on_heci H H.init
              >> (on_heci H (H.connect_client lme_uuid)
                  >> (send_flow_control H >> apf_handshake H fuel)))
            s).1
  connect_keeps s v = heci_keeps _ H.init s v λ t w.
      heci_keeps _ (H.connect_client lme_uuid) t w λ t' w'.
        and_then_keeps (IsValid H) (λ _. Unit {0}) (λ _. apf_handshake H fuel)
          (send_flow_control H t') (IsSame-IsValid t' _ (send_flow_control-IsSame t') w')
          (OkIs-any _) (λ _ u x _. apf_handshake-IsValid u x)

  reconnect_lme-IsValid : (s : Session H) → IsValid H s → IsValid H (reconnect_lme H fuel s).1
  unfolding reconnect_lme
  reconnect_lme-IsValid s v = connect_keeps _ (ground arith)

  -- `LmeSession::init` ends in a valid session, whatever context it starts from.
  pub init-IsValid : (c : H.Ctx) → IsValid H (init H fuel c).1
  unfolding init
  init-IsValid c = connect_keeps _ (omega (arith, length-replicate {A = ℕ} 4096 0))

  reopen_channel-IsValid : (s : Session H) → IsValid H s → IsValid H (reopen_channel H fuel s).1
  unfolding reopen_channel
  reopen_channel-IsValid s v =
      and_then_keeps (IsValid H) (λ _. Unit {0}) (λ _. try_channel_open H fuel)
        (reconnect_lme H fuel s) (reconnect_lme-IsValid s v) (OkIs-any _)
        (λ _ t w _. try_channel_open-IsValid t w)

  after_open-IsValid :
      (e : Error) (s : Session H) → IsValid H s → IsValid H (after_open H fuel e s).1
  unfolding reopen_channel
  after_open-IsValid aborted s v = reopen_channel-IsValid s v
  after_open-IsValid _ s v = v

  channel_open-IsValid : (s : Session H) → IsValid H s → IsValid H (channel_open H fuel s).1
  unfolding channel_open
  channel_open-IsValid s v =
      on_result_keeps (IsValid H) (λ _. Unit {0}) _ _ (try_channel_open H fuel s)
        (try_channel_open-IsValid s v) (OkIs-any _) (λ _ t w _. w)
        (λ e t w. after_open-IsValid e t w)

  receive-IsValid : (s : Session H) → IsValid H s → IsValid H (receive H fuel s).1
  unfolding receive
  receive-IsValid s v = receive_loop-IsValid 100 _ (ground arith)

  send-IsValid : (m : List ℕ) (s : Session H) → IsValid H s → IsValid H (send H m s).1
  unfolding send
  send-IsValid m s v =
      ground
        (arith, v, IsSame-IsValid s _ (raw_send-IsSame (channel_data_bytes s.amt_channel m) s) v)

  close_channel-IsValid : (s : Session H) → IsValid H s → IsValid H (close_channel H s).1
  unfolding close_channel raw_send
  close_channel-IsValid s v = ground arith

  close-IsValid : (s : Session H) → IsValid H s → IsValid H (close H s).1
  unfolding close
  close-IsValid s v =
      and_then_keeps (IsValid H) (λ _. Unit {0}) _ (close_channel H s) (close_channel-IsValid s v)
        (OkIs-any _) (λ _ t w _. ground (arith, w))

-- The sessions that calls of the public methods lead to, however each of them ends.
pub data Reached (H : Heci) (fuel : ℕ) : Session H → Type 0 where
  started : (c : H.Ctx) → Reached H fuel (init H fuel c).1
  opened : {s : Session H} → Reached H fuel s → Reached H fuel (channel_open H fuel s).1
  reopened : {s : Session H} → Reached H fuel s → Reached H fuel (reopen_channel H fuel s).1
  sent : {s : Session H} (m : List ℕ) → Reached H fuel s → Reached H fuel (send H m s).1
  heard : {s : Session H} → Reached H fuel s → Reached H fuel (receive H fuel s).1
  channel_closed : {s : Session H} → Reached H fuel s → Reached H fuel (close_channel H s).1
  closed : {s : Session H} → Reached H fuel s → Reached H fuel (close H s).1

module _ {H : Heci} (reads : ReadsBytes H) {fuel : ℕ} where
  -- Whatever the management engine sends and however the calls of it end, every session that is
  -- reached by calls of the public methods has a receive buffer of 4096 bytes, filled no further
  -- than its end, and 32-bit channel numbers and window. The hypothesis is that `read_msg` leaves
  -- bytes in its buffer.
  pub Reached-IsValid : {s : Session H} → Reached H fuel s → IsValid H s
  Reached-IsValid (started c) = init-IsValid reads fuel c
  Reached-IsValid (opened {s = s} r) = channel_open-IsValid reads fuel s (Reached-IsValid r)
  Reached-IsValid (reopened {s = s} r) = reopen_channel-IsValid reads fuel s (Reached-IsValid r)
  Reached-IsValid (sent {s = s} m r) = send-IsValid reads fuel m s (Reached-IsValid r)
  Reached-IsValid (heard {s = s} r) = receive-IsValid reads fuel s (Reached-IsValid r)
  Reached-IsValid (channel_closed {s = s} r) =
      close_channel-IsValid reads fuel s (Reached-IsValid r)
  Reached-IsValid (closed {s = s} r) = close-IsValid reads fuel s (Reached-IsValid r)
