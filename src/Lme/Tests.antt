-- ===== src/Lme/Tests.antt =====
-- Runs of the session over scripted messages, and the theorems at concrete inputs.
use amt_uefi_boot_app.Lme.Channel.Receive.{Stream, receive_lem, brings, closes}
use amt_uefi_boot_app.Lme.Session.Recv.{bytes_test-IsBytes}
use amt_uefi_boot_app.Lme.Channel.Inv.{Reached-IsValid, heard, opened, started}
use amt_uefi_boot_app.Lme.Channel.Open.{
  send-process_apf, close_channel_twice, Answered, opening, try_channel_open_confirmed,
}
use amt_uefi_boot_app.Lme.Process.Inv.{IsValid, process_apf-IsValid}
use amt_uefi_boot_app.Lme.Apf.{read_be32, write_be32}
use amt_uefi_boot_app.Lme.Process.Data.{content, content-process_apf}
use amt_uefi_boot_app.Outcome.{ok}
use amt_uefi_boot_app.Lme.Process.{
  process_apf, on_global_request, on_channel_data, forward_port, store_data, on_channel_close,
}
use amt_uefi_boot_app.Lme.Frames.{
  protocol_version_bytes, window_adjust_bytes, channel_data_bytes, channel_open_bytes,
}
use amt_uefi_boot_app.Lme.Channel.{
  receive, apf_handshake, receive_loop, received, handshake_loop, close_channel, send, channel_open,
  try_channel_open, next_channel,
}
use amt_uefi_boot_app.Lme.Session.{
  Session, raw_recv, raw_recv_loop, raw_send, raw_recv_round, hear, send_flow_control,
}
use amt_uefi_boot_app.Prelude.{
  List, ℕ, ◌∷◌, [], ◌≡◌, refl, true, length, blit, replicate, false, arith, length-replicate,
}
use amt_uefi_boot_app.Lme.Channel.{init}
use amt_uefi_boot_app.Lme.Script.{script, script_reads, script_sends, session_at, wire}

-- The messages of a whole session: version, tcpip-forward for 16992, confirmation, data, close.
abbrev version_message : List ℕ
version_message = 192 ∷ []

abbrev forward_message : List ℕ
forward_message = 80 ∷ 0 ∷ 0 ∷ 0 ∷ 1 ∷ b'x' ∷ 1 ∷ 0 ∷ 0 ∷ 0 ∷ 1 ∷ b'a' ∷ 0 ∷ 0 ∷ 0x42 ∷ 0x60 ∷ []

abbrev confirmation : List ℕ
confirmation = 91 ∷ 0 ∷ 0 ∷ 0 ∷ 1 ∷ 0 ∷ 0 ∷ 0 ∷ 5 ∷ 0 ∷ 0 ∷ 16 ∷ 0 ∷ 255 ∷ 255 ∷ 255 ∷ 255 ∷ []

abbrev data_message : List ℕ
data_message = 94 ∷ 0 ∷ 0 ∷ 0 ∷ 1 ∷ 0 ∷ 0 ∷ 0 ∷ 2 ∷ b'h' ∷ b'i' ∷ []

abbrev close_message : List ℕ
close_message = 97 ∷ 0 ∷ 0 ∷ 0 ∷ 1 ∷ []

abbrev small : Session script
small = session_at (wire (data_message ∷ close_message ∷ [])) (0 ∷ 0 ∷ 0 ∷ 0 ∷ []) 0

handshake_runs :
    let (o, t) = init script 50 (wire (version_message ∷ forward_message ∷ [])) in
    (o ≡ ok tt) × (t.port_forward_ok ≡ true) × (length t.heci.outbox ≡ 5)
unfolding init apf_handshake handshake_loop raw_send raw_recv raw_recv_loop raw_recv_round hear
    send_flow_control process_apf on_global_request forward_port read_be32 protocol_version_bytes
    write_be32
handshake_runs = (refl, refl, refl)

receive_runs : let (o, t) = receive script 50 small in (o ≡ ok tt) × (content t ≡ b'h' ∷ b'i' ∷ [])
unfolding receive receive_loop received raw_recv raw_recv_loop raw_recv_round hear send_flow_control
    raw_send process_apf on_channel_data store_data on_channel_close read_be32 window_adjust_bytes
    write_be32 blit
receive_runs = (refl, refl)

Reached-IsValid_example :
    IsValid script
      (receive script 50
        (channel_open script 50 (init script 50 (wire (confirmation ∷ data_message ∷ []))).1).1).1
Reached-IsValid_example =
    Reached-IsValid script_reads
      (heard (opened (started (wire (confirmation ∷ data_message ∷ [])))))

abbrev small_valid : Session script
small_valid = session_at (wire []) (replicate 4096 0) 7

process_apf-IsValid_example : IsValid script (process_apf script data_message small_valid).1
process_apf-IsValid_example =
    process_apf-IsValid small_valid (omega (arith, length-replicate {A = ℕ} 4096 0)) data_message
      (bytes_test-IsBytes data_message refl)

-- A data message that states 200 bytes and carries 2.
abbrev overrun : List ℕ
overrun = 94 ∷ 0 ∷ 0 ∷ 0 ∷ 1 ∷ 0 ∷ 0 ∷ 0 ∷ 200 ∷ b'h' ∷ b'i' ∷ []

content-process_apf_example :
    content (process_apf script (channel_data_bytes 1 (b'h' ∷ b'i' ∷ [])) small).1
    ≡ b'h' ∷ b'i' ∷ []
content-process_apf_example =
    content-process_apf small 1 (b'h' ∷ b'i' ∷ []) (omega arith) (omega arith)

closes_twice :
    let (o, t) = close_channel script (record small { channel_active = true }) in
    (o ≡ ok tt) × (t.channel_active ≡ false) × (close_channel script t ≡ (ok tt, t))
closes_twice =
    close_channel_twice {H = script} script_sends (record small { channel_active = true })

send-process_apf_example :
    (frame : List ℕ) × (send script (b'h' ∷ b'i' ∷ []) small ≡ raw_send script frame small)
    × (length frame ≡ 11)
    × (content (process_apf script frame small).1 ≡ b'h' ∷ b'i' ∷ [])
send-process_apf_example =
    send-process_apf script script small small (b'h' ∷ b'i' ∷ []) (omega arith) (omega arith)
      (omega arith)

-- The two states that `small` goes through while it receives.
abbrev after_data : Session script
after_data = record small {
  heci = record {
    inbox = close_message ∷ [];
    outbox = (8 ∷ 7 ∷ 2 ∷ 0 ∷ 0 ∷ 0 ∷ 0 ∷ 0 ∷ []) ∷ (93 ∷ 0 ∷ 0 ∷ 0 ∷ 9 ∷ 0 ∷ 0 ∷ 0 ∷ 2 ∷ []) ∷ [];
  };
  rx_buf = b'h' ∷ b'i' ∷ 0 ∷ 0 ∷ [];
  rx_len = 2;
  hbm_send_credits = 2;
}

abbrev heard_data : Session script
heard_data = (raw_recv script 50 2048 small).1

abbrev heard_close : Session script
heard_close = (raw_recv script 50 2048 after_data).1

small-Stream :
    Stream script 50 2 small (b'h' ∷ b'i' ∷ []) (process_apf script close_message heard_close).1
unfolding raw_recv raw_recv_loop raw_recv_round hear send_flow_control raw_send process_apf
    on_channel_data store_data on_channel_close read_be32 window_adjust_bytes write_be32 blit
    channel_data_bytes
small-Stream =
    brings 1 (b'h' ∷ b'i' ∷ []) [] (b'h' ∷ b'i' ∷ []) refl (omega arith) (omega arith) (omega arith)
      (record { between = heard_data; arrives = refl; processed = refl })
      (closes {s = after_data} close_message refl
        (record { between = heard_close; arrives = refl; processed = refl }))

receive_lem_example :
    (receive script 50 small ≡ (ok tt, (process_apf script close_message heard_close).1))
    × (content (process_apf script close_message heard_close).1 ≡ b'h' ∷ b'i' ∷ [])
receive_lem_example = receive_lem script_reads 50 small (omega arith) (omega arith) small-Stream

abbrev short_open : Session script
short_open = session_at (wire ((91 ∷ 0 ∷ []) ∷ [])) [] 0

short_answer :
    Answered 50 short_open
      (91 ∷ 0 ∷ [])
      (raw_recv script 50 512
        (raw_send script (channel_open_bytes (next_channel 31)) (opening short_open)).1).1
unfolding raw_recv raw_recv_loop raw_recv_round hear send_flow_control raw_send
short_answer = record { between = _; sends = refl; answer = refl }

try_channel_open_confirmed_example :
    let (o, v) = try_channel_open script 50 short_open in
    (o ≡ ok tt)
    × (v.channel_active ≡ false)
    × (v.our_channel ≡ next_channel 31)
    × (v.amt_channel ≡ 0)
    × (v.tx_window ≡ 0)
try_channel_open_confirmed_example =
    try_channel_open_confirmed 50 script_reads short_open _ (91 ∷ 0 ∷ []) refl short_answer
