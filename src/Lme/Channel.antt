-- ===== src/Lme/Channel.antt =====
-- The rest of `LmeSession` in src/lme/mod.rs (UEFI target): the handshake, opening and closing a
-- channel, sending and receiving through it. Two things have no counterpart: the flag against
-- re-entry of `send` (one thread, and `raw_send` does not call back) and `flush_log`, a file write.
pub mod Inv
pub mod Open
pub mod Receive
use amt_uefi_boot_app.Prelude.{
  ℕ, zero, suc, ◌+◌, ◌%◌, ◌^◌, Bool, false, ◌&&◌, ◌||◌, List, ◌∷◌, ◌==◌, ltb, leb, if◌then◌else◌,
  length, replicate,
}
use amt_uefi_boot_app.Outcome.{
  Outcome, ok, err, Error, Action, timeout, device_error, buffer_too_small, unsupported, aborted,
  pure, fail, modify, ◌>>=◌, ◌>>◌, ignore, on_result,
}
use amt_uefi_boot_app.Lme.Apf.{
  apf_channel_open_confirmation, apf_channel_open_failure, apf_channel_window_adjust,
  apf_channel_data, apf_channel_close, apf_protocolversion, lme_uuid, write_be32,
}
use amt_uefi_boot_app.Lme.Frames.{channel_open_bytes, channel_data_bytes, protocol_version_bytes}
use amt_uefi_boot_app.Lme.Transport.{Heci}
use amt_uefi_boot_app.Lme.Session.{
  Session, lme_rx_buf_size, on_heci, send_flow_control, raw_send, raw_recv,
}
use amt_uefi_boot_app.Lme.Process.{process_apf}

-- A channel number from 1 to 31.
unfoldable pub next_channel : ℕ → ℕ
next_channel channel = let n = (channel + 1) % 2 ^ 32 % 32 in if n == 0 then 1 else n

module _ (H : Heci) (fuel : ℕ) where
  abbrev Act : Type 0 → Type 0
  Act = Action (Session H)

  -- The loop of `apf_handshake`; the result is `protocol_version_ok`.
  unfoldable pub handshake_loop : ℕ → Bool → ℕ → Action (Session H) Bool
  handshake_loop zero version_ok timeouts s = (ok version_ok, s)
  handshake_loop (suc attempts) version_ok timeouts s =
      let again = handshake_loop attempts in
      on_result (raw_recv H fuel 512 s)
        (λ message. process_apf H message >>= λ msg_type. λ t.
          let seen = version_ok || (msg_type == apf_protocolversion) in
          if t.port_forward_ok then (ok seen, t) else again seen 0 t)
        (λ e t.
          if t.port_forward_ok
          then (ok version_ok, t)
          else if version_ok && leb 2 (timeouts + 1)
          then (ok version_ok, t)
          else again version_ok (timeouts + 1) t)

  unfoldable pub apf_handshake : Action (Session H) (Unit {0})
  apf_handshake =
      raw_send H protocol_version_bytes
      >> (handshake_loop 40 false 0 >>= λ version_ok.
          if version_ok then pure tt else fail unsupported)

  -- `LmeSession::init`, from the context `old_heci` that it closes.
  unfoldable pub init : H.Ctx → Outcome (Unit {0}) × Session H
  init old =
      (on_heci H H.init
          >> (on_heci H (H.connect_client lme_uuid) >> (send_flow_control H >> apf_handshake)))
        (record {
          heci = H.fresh (H.close old);
          our_channel = 0;
          amt_channel = 0;
          channel_active = false;
          tx_window = 0;
          rx_buf = replicate lme_rx_buf_size 0;
          rx_len = 0;
          port_forward_ok = false;
          hbm_send_credits = 1;
        })

  -- The loop of `try_channel_open`.
  unfoldable pub open_loop : ℕ → Action (Session H) (Unit {0})
  open_loop zero = fail timeout
  open_loop (suc attempts) =
      let again = open_loop attempts in
      raw_recv H fuel 512 >>= λ message. process_apf H message >>= λ msg_type t.
      if msg_type == apf_channel_open_confirmation
      then (ok tt, t)
      else if msg_type == apf_channel_open_failure
      then (err device_error, t)
      else again t

  unfoldable pub try_channel_open : Action (Session H) (Unit {0})
  try_channel_open s =
      let channel = next_channel s.our_channel in
      (raw_send H (channel_open_bytes channel) >> open_loop 30)
        (record s { our_channel = channel; amt_channel = 0; tx_window = 0 })

  unfoldable pub reconnect_lme : Action (Session H) (Unit {0})
  reconnect_lme s =
      (on_heci H H.init
          >> (on_heci H (H.connect_client lme_uuid) >> (send_flow_control H >> apf_handshake)))
        (record s {
          channel_active = false;
          amt_channel = 0;
          tx_window = 0;
          our_channel = 0;
          port_forward_ok = false;
          hbm_send_credits = 1;
          heci = H.close s.heci;
        })

  -- `Err(Aborted)` is recovered from once.
  abbrev pub after_open : Error → Action (Session H) (Unit {0})
  after_open aborted = reconnect_lme >> try_channel_open
  after_open e = fail e

  unfoldable pub channel_open : Action (Session H) (Unit {0})
  channel_open s = on_result (try_channel_open s) pure after_open

  unfoldable pub reopen_channel : Action (Session H) (Unit {0})
  reopen_channel = reconnect_lme >> try_channel_open

  -- The loop of `receive`, and what it returns when it stops.
  unfoldable pub received : Error → Action (Session H) (Unit {0})
  received e s = if ltb 0 s.rx_len then (ok tt, s) else (err e, s)

  unfoldable pub receive_loop : ℕ → Action (Session H) (Unit {0})
  receive_loop zero s = received timeout s
  receive_loop (suc attempts) s =
      let again = receive_loop attempts in
      on_result (raw_recv H fuel 2048 s)
        (λ message. process_apf H message >>= λ msg_type t.
          if msg_type == apf_channel_data || msg_type == apf_channel_window_adjust
          then again t
          else if msg_type == apf_channel_close
          then received aborted t
          else again t)
        (λ e. received timeout)

  unfoldable pub receive : Action (Session H) (Unit {0})
  receive s = receive_loop 100 (record s { rx_len = 0 })

module _ (H : Heci) where
  unfoldable pub send : List ℕ → Action (Session H) (Unit {0})
  send payload s =
      if ltb 2048 (9 + length payload)
      then (err buffer_too_small, s)
      else raw_send H (channel_data_bytes s.amt_channel payload) s

  unfoldable pub close_channel : Action (Session H) (Unit {0})
  close_channel s =
      if s.channel_active
      then (ignore (raw_send H (apf_channel_close ∷ write_be32 s.amt_channel))
            >> modify (λ t. record t { channel_active = false; amt_channel = 0; tx_window = 0 }))
          s
      else (ok tt, s)

  unfoldable pub close : Action (Session H) (Unit {0})
  close = close_channel >> modify (λ t. record t { heci = H.close t.heci })
