-- ===== src/Heci/Client.antt =====
-- Flow control, `send`, `receive`, the connection to a client by UUID and `close`, of
-- src/heci/mod.rs and src/heci/hbm.rs (the UEFI target).
pub mod Search
pub mod Asked
use amt_uefi_boot_app.Heci.Hbm.{
  hbm_cmd_flow_control, hbm_cmd_client_disconnect_req, hbm_cmd_host_version, enum_bytes,
  client_prop_bytes, client_prop_resp, connect_bytes, connect_resp, enum_resp, flow_control_bytes,
  hbm_cmd_client_disconnect_resp, hbm_minor_version, hbm_cmd_host_enum, hbm_cmd_host_client_prop,
  hbm_cmd_host_client_prop_resp, hbm_cmd_connect, hbm_cmd_connect_resp, hbm_major_version,
  hbm_cmd_host_enum_resp, version_bytes, version_resp, hbm_cmd_host_version_resp, HbmFlowControl,
  HbmHostVersionReq,
}
use amt_uefi_boot_app.Prelude.{
  ℕ, zero, suc, ◌+◌, ◌/◌, ◌%◌, ◌^◌, true, ◌&&◌, ◌||◌, Option, none, some, List, [], ◌∷◌, ◌==◌, ltb,
  leb, if◌then◌else◌, get_or, take, slice, blit, replicate, bit_and, length, not, same_bytes,
  read_le32,
}
use amt_uefi_boot_app.Outcome.{
  waits, protocol_error, unsupported, device_error, not_found, buffer_too_small, Action, pure, fail,
  modify, ◌>>=◌, ◌>>◌, ignore, on_result, err, ok,
}
use amt_uefi_boot_app.Lme.Transport.{Received}
use amt_uefi_boot_app.Heci.Device.{HeciContext}
use amt_uefi_boot_app.Heci.Write.{write_msg}
use amt_uefi_boot_app.Heci.Read.{read_msg}

abbrev pub amthi_uuid : List ℕ
amthi_uuid =
    0x28 ∷ 0x00 ∷ 0xf8 ∷ 0x12 ∷ 0xb7 ∷ 0xb4 ∷ 0x2d ∷ 0x4b ∷ 0xac ∷ 0xa8 ∷ 0x46 ∷ 0xe0 ∷ 0xff ∷ 0x65
    ∷ 0x81 ∷ 0x4c ∷ []

unfoldable pub send_flow_control : Action HeciContext (Unit {0})
send_flow_control s =
    let fc : HbmFlowControl = record {
      cmd = hbm_cmd_flow_control;
      me_addr = s.me_addr;
      host_addr = s.host_addr;
      reserved = replicate 5 0;
    } in
    write_msg 0 0 (flow_control_bytes fc) true s

unfoldable pub send : List ℕ → Action HeciContext (Unit {0})
send bytes s = (write_msg s.me_addr s.host_addr bytes true >> send_flow_control) s

-- `rounds` is the number of fragments that one `read_msg` may take, which has no bound of its own.
module _ (rounds : ℕ) where
  -- The loop of `receive`, over as many messages as `fuel` allows.
  unfoldable pub receive_loop : ℕ → List ℕ → List ℕ → Action HeciContext (ℕ × List ℕ)
  receive_loop zero buf tmp = λ s. (waits, s)
  receive_loop (suc fuel) buf tmp =
      let again = receive_loop fuel buf in
      read_msg rounds tmp >>= λ m s.
      if m.from_me == 0 && m.to_host == 0
      then ((if get_or m.bytes 0 0 == hbm_cmd_client_disconnect_req && leb 4 m.count
              then ignore (
                  write_msg 0 0
                    (hbm_cmd_client_disconnect_resp
                      ∷ get_or m.bytes 1 0
                      ∷ get_or m.bytes 2 0
                      ∷ 0
                      ∷ [])
                    true)
              else pure tt)
            >> again m.bytes)
          s
      else if m.from_me == s.me_addr && m.to_host == s.host_addr
      then if ltb (length buf) m.count
        then (err buffer_too_small, s)
        else (ok (m.count, blit buf 0 (take m.count m.bytes)), s)
      else again m.bytes s

  unfoldable pub receive : ℕ → List ℕ → Action HeciContext (ℕ × List ℕ)
  receive fuel buf = receive_loop fuel buf (replicate 2048 0)

  unfoldable pub exchange : List ℕ → List ℕ → Action HeciContext Received
  exchange request buf = write_msg 0 0 request true >> read_msg rounds buf

  -- Step 1: the version. The result is the buffer.
  unfoldable pub hbm_version : List ℕ → Action HeciContext (List ℕ)
  hbm_version buf =
      let req : HbmHostVersionReq = record {
        cmd = hbm_cmd_host_version;
        minor = hbm_minor_version;
        major = hbm_major_version;
        reserved = 0;
      } in
      exchange (version_bytes req) buf >>= λ m.
      let resp = version_resp m.bytes in
      if ltb m.count 4
      then fail protocol_error
      else if not (resp.cmd == hbm_cmd_host_version_resp) || resp.supported == 0
      then fail unsupported
      else pure m.bytes

  -- Step 2: the bit map of the clients is in bytes 4 to 35.
  unfoldable pub hbm_enumerate : List ℕ → Action HeciContext (List ℕ)
  hbm_enumerate buf =
      exchange (enum_bytes (record { cmd = hbm_cmd_host_enum; reserved = replicate 3 0 })) buf
      >>= λ m.
          if ltb m.count 36
          then fail protocol_error
          else if (enum_resp m.bytes).cmd == hbm_cmd_host_enum_resp
          then pure m.bytes
          else fail device_error

  abbrev pub client_prop_request : ℕ → List ℕ
  client_prop_request i =
      client_prop_bytes
        (record { cmd = hbm_cmd_host_client_prop; me_addr = i; reserved = replicate 2 0 })

  -- Step 3, from client `i` on for `left` clients: the address of the one with this UUID. An error
  -- passes a client over.
  unfoldable pub find_client :
      List ℕ → List ℕ → ℕ → ℕ → List ℕ → Action HeciContext (Option ℕ × List ℕ)
  find_client valid uuid zero i buf = pure (none, buf)
  find_client valid uuid (suc left) i buf =
      let again = find_client valid uuid left (i + 1) in
      if bit_and (get_or valid (i / 8) 0) (2 ^ (i % 8)) == 0 then again buf else λ s.
      on_result (exchange (client_prop_request i) buf s)
        (λ m.
          let resp = client_prop_resp m.bytes in
          if ltb m.count 28
            || (not (resp.cmd == hbm_cmd_host_client_prop_resp) || not (resp.status == 0))
          then again m.bytes
          else if same_bytes resp.uuid uuid
          then (modify (λ t. record t { max_msg_len = resp.max_msg_length })
              >> pure (some resp.me_addr, m.bytes))
          else again m.bytes)
        (λ e. again buf)

  abbrev pub connect_request : ℕ → ℕ → List ℕ
  connect_request me host =
      connect_bytes (record { cmd = hbm_cmd_connect; me_addr = me; host_addr = host; reserved = 0 })

  -- Steps 4 and 5.
  unfoldable pub hbm_connect : ℕ → ℕ → List ℕ → Action HeciContext (Unit {0})
  hbm_connect me host buf =
      modify (λ s. record s { me_addr = me; host_addr = host })
      >> (exchange (connect_request me host) buf >>= λ m.
          if ltb m.count 4
          then fail protocol_error
          else if not ((connect_resp m.bytes).cmd == hbm_cmd_connect_resp)
              || not ((connect_resp m.bytes).status == 0)
          then fail device_error
          else λ s.
              on_result (read_msg rounds (replicate 64 0) s) (λ first. pure tt) (λ e. pure tt))

  unfoldable pub connect_client_impl : List ℕ → ℕ → Action HeciContext (Unit {0})
  connect_client_impl uuid host = hbm_version (replicate 256 0) >>= λ buf1.
      hbm_enumerate buf1 >>= λ buf2.
      find_client (enum_resp buf2).valid_addresses uuid 255 1 buf2 >>= λ found. elim found.0 [
        | none ↦ fail not_found
        | some me ↦ hbm_connect me host found.1
      ]

  unfoldable pub connect_amthi : Action HeciContext (Unit {0})
  connect_amthi = connect_client_impl amthi_uuid 1

  unfoldable pub connect_client : List ℕ → Action HeciContext (Unit {0})
  connect_client uuid = connect_client_impl uuid 2

unfoldable pub close : HeciContext → HeciContext
close s = record s { mmio = 0; me_addr = 0; host_addr = 0 }
