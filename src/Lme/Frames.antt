-- ===== src/Lme/Frames.antt =====
-- The APF messages that src/lme/mod.rs builds, as the bytes that it sends. The code fills arrays
-- of zeros from left to right; here the parts stand in a row.
use amt_uefi_boot_app.Lme.Apf.{
  write_be32, apf_channel_open, apf_channel_data, apf_channel_window_adjust, apf_protocolversion,
  lme_rx_window_size, apf_amt_http_port,
}
use amt_uefi_boot_app.Prelude.{ℕ, List, ◌∷◌, [], ◌++◌, replicate, length, ◌%◌, ◌^◌}

-- b"forwarded-tcpip" and b"127.0.0.1"
abbrev pub forwarded_tcpip : List ℕ
forwarded_tcpip =
    b'f' ∷ b'o' ∷ b'r' ∷ b'w' ∷ b'a' ∷ b'r' ∷ b'd' ∷ b'e' ∷ b'd' ∷ b'-' ∷ b't' ∷ b'c' ∷ b'p' ∷ b'i'
    ∷ b'p' ∷ []

abbrev pub localhost : List ℕ
localhost = b'1' ∷ b'2' ∷ b'7' ∷ b'.' ∷ b'0' ∷ b'.' ∷ b'0' ∷ b'.' ∷ b'1' ∷ []

-- The 93 bytes of APF_PROTOCOLVERSION 1.0.
unfoldable pub protocol_version_bytes : List ℕ
protocol_version_bytes =
    apf_protocolversion ∷ write_be32 1 ++ (write_be32 0 ++ (write_be32 0 ++ replicate 80 0))

-- `msg[..msg_len]` of `try_channel_open`.
unfoldable pub channel_open_bytes : ℕ → List ℕ
channel_open_bytes channel =
    apf_channel_open
    ∷ (write_be32 15
        ++ (forwarded_tcpip
            ++ (write_be32 channel
                ++ (write_be32 lme_rx_window_size
                    ++ (write_be32 0xffff_ffff
                        ++ (write_be32 9
                            ++ (localhost
                                ++ (write_be32 apf_amt_http_port
                                    ++ (write_be32 9 ++ (localhost ++ write_be32 16992))))))))))

-- `send_buf[..total]` of `send`.
unfoldable pub channel_data_bytes : ℕ → List ℕ → List ℕ
channel_data_bytes channel payload =
    apf_channel_data ∷ write_be32 channel ++ (write_be32 (length payload % 2 ^ 32) ++ payload)

-- `wa`, the answer to channel data.
unfoldable pub window_adjust_bytes : ℕ → ℕ → List ℕ
window_adjust_bytes channel count =
    apf_channel_window_adjust ∷ write_be32 channel ++ write_be32 count
