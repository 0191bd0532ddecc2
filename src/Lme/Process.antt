-- ===== src/Lme/Process.antt =====
-- `process_apf` of src/lme/mod.rs: one handler for each arm of its match. A message is the list
-- of its bytes, so `data.len()` is its length.
pub mod Inv
pub mod Total
pub mod Data
use amt_uefi_boot_app.Prelude.{
  ℕ, ◌+◌, ◌%◌, ◌^◌, min, true, false, ◌&&◌, List, [], ◌∷◌, ◌++◌, ◌==◌, ltb, leb, if◌then◌else◌,
  length, get_or, take, slice, replicate, blit, ◌-◌,
}
use amt_uefi_boot_app.Outcome.{Action, pure, modify, ◌>>◌, ignore, in_bounds}
use amt_uefi_boot_app.Lme.Apf.{
  apf_service_request, apf_service_accept, apf_global_request, apf_request_success,
  apf_channel_open_confirmation, apf_channel_window_adjust, apf_channel_data, apf_channel_close,
  apf_keepalive_request, apf_keepalive_reply, apf_amt_http_port, read_be32, write_be32,
}
use amt_uefi_boot_app.Lme.Frames.{window_adjust_bytes}
use amt_uefi_boot_app.Lme.Transport.{Heci}
use amt_uefi_boot_app.Lme.Session.{Session, raw_send}

-- `accept[..alen]`, of the 64 bytes built for a service name of `name_len` bytes.
unfoldable pub accept_bytes : List ℕ → ℕ → List ℕ
accept_bytes message name_len =
    let copy = min name_len 32 in
    take (5 + name_len) (
      apf_service_accept ∷ write_be32 name_len
      ++ (slice message 5 (5 + copy) ++ replicate (59 - copy) 0))

-- The port of a tcpip-forward request whose address field starts at `offset`; 0 if it is cut short.
unfoldable pub forward_port : List ℕ → ℕ → ℕ
forward_port message offset =
    let at = offset + 4 + read_be32 message offset in
    if leb (offset + 4) (length message) && leb (at + 4) (length message)
    then read_be32 message at
    else 0

module _ (H : Heci) where
  abbrev skip : Action (Session H) (Unit {0})
  skip = pure tt

  abbrev reply : List ℕ → Action (Session H) (Unit {0})
  reply message = ignore (raw_send H message)

  unfoldable pub on_open_confirmation : List ℕ → Action (Session H) (Unit {0})
  on_open_confirmation message =
      if leb 17 (length message)
      then modify (λ s. record s {
        our_channel = read_be32 message 1;
        amt_channel = read_be32 message 5;
        tx_window = read_be32 message 9;
        channel_active = true;
      })
      else skip

  unfoldable pub on_window_adjust : List ℕ → Action (Session H) (Unit {0})
  on_window_adjust message =
      if leb 9 (length message)
      then modify (λ s. record s { tx_window = (s.tx_window + read_be32 message 5) % 2 ^ 32 })
      else skip

  -- `rx_len` stays within the buffer, so its addition cannot wrap.
  unfoldable pub store_data : List ℕ → ℕ → Action (Session H) (Unit {0})
  store_data message data_len s =
      (in_bounds (leb (9 + data_len) (length message))
          >> modify (λ (t : Session H). record t {
            rx_buf = blit t.rx_buf t.rx_len (slice message 9 (9 + data_len));
            rx_len = t.rx_len + data_len;
          })
          >> reply (window_adjust_bytes s.amt_channel data_len))
        s

  unfoldable pub on_channel_data : List ℕ → Action (Session H) (Unit {0})
  on_channel_data message s =
      let data_len = read_be32 message 5 in
      if leb 9 (length message) && (ltb 0 data_len && leb (s.rx_len + data_len) (length s.rx_buf))
      then store_data message data_len s
      else skip s

  unfoldable pub on_channel_close : Action (Session H) (Unit {0})
  on_channel_close s =
      ((if s.channel_active then reply (apf_channel_close ∷ write_be32 s.amt_channel) else skip)
          >> modify (λ t. record t { channel_active = false; amt_channel = 0; tx_window = 0 }))
        s

  unfoldable pub on_service_request : List ℕ → Action (Session H) (Unit {0})
  on_service_request message =
      let name_len = read_be32 message 1 in
      if leb 5 (length message) && leb (5 + name_len) (length message)
      then in_bounds (leb (5 + name_len) 64) >> reply (accept_bytes message name_len)
      else skip

  unfoldable pub on_global_request : List ℕ → Action (Session H) (Unit {0})
  on_global_request message =
      let name_len = read_be32 message 1 in
      let port = forward_port message (6 + name_len) in
      if leb 5 (length message) && leb (6 + name_len) (length message)
      then (if get_or message (5 + name_len) 0 == 0
          then skip
          else reply (apf_request_success ∷ write_be32 port))
        >> (if port == apf_amt_http_port
            then modify (λ s. record s { port_forward_ok = true })
            else skip)
      else skip

  unfoldable pub on_keepalive : List ℕ → Action (Session H) (Unit {0})
  on_keepalive message =
      if leb 5 (length message) then reply (apf_keepalive_reply ∷ slice message 1 5) else skip

  -- The arms for APF_PROTOCOLVERSION and APF_CHANNEL_OPEN_FAILURE only log.
  unfoldable pub dispatch : ℕ → List ℕ → Action (Session H) (Unit {0})
  dispatch msg_type message =
      if msg_type == apf_channel_open_confirmation
      then on_open_confirmation message
      else if msg_type == apf_channel_window_adjust
      then on_window_adjust message
      else if msg_type == apf_channel_data
      then on_channel_data message
      else if msg_type == apf_channel_close
      then on_channel_close
      else if msg_type == apf_service_request
      then on_service_request message
      else if msg_type == apf_global_request
      then on_global_request message
      else if msg_type == apf_keepalive_request
      then on_keepalive message
      else skip

  unfoldable pub process_apf : List ℕ → Action (Session H) ℕ
  unfolding dispatch
  process_apf [] = pure 0
  process_apf (msg_type ∷ rest) = dispatch msg_type (msg_type ∷ rest) >> pure msg_type
