-- ===== src/Lme/Apf.antt =====
-- src/lme/apf.rs: message types, sizes, and big-endian words.
use amt_uefi_boot_app.Prelude.{ℕ, ◌+◌, ◌*◌, ◌/◌, ◌%◌, ◌^◌, List, [], ◌∷◌, get_or}

abbrev pub apf_service_request : ℕ
apf_service_request = 5

abbrev pub apf_service_accept : ℕ
apf_service_accept = 6

abbrev pub apf_global_request : ℕ
apf_global_request = 80

abbrev pub apf_request_success : ℕ
apf_request_success = 81

abbrev pub apf_channel_open : ℕ
apf_channel_open = 90

abbrev pub apf_channel_open_confirmation : ℕ
apf_channel_open_confirmation = 91

abbrev pub apf_channel_open_failure : ℕ
apf_channel_open_failure = 92

abbrev pub apf_channel_window_adjust : ℕ
apf_channel_window_adjust = 93

abbrev pub apf_channel_data : ℕ
apf_channel_data = 94

abbrev pub apf_channel_close : ℕ
apf_channel_close = 97

abbrev pub apf_protocolversion : ℕ
apf_protocolversion = 192

abbrev pub apf_keepalive_request : ℕ
apf_keepalive_request = 208

abbrev pub apf_keepalive_reply : ℕ
apf_keepalive_reply = 209

abbrev pub lme_rx_window_size : ℕ
lme_rx_window_size = 4096

abbrev pub apf_amt_http_port : ℕ
apf_amt_http_port = 16992

abbrev pub lme_uuid : List ℕ
lme_uuid =
    0xdb ∷ 0xa4 ∷ 0x33 ∷ 0x67 ∷ 0x76 ∷ 0x04 ∷ 0x7b ∷ 0x4e ∷ 0xb3 ∷ 0xaf ∷ 0xbc ∷ 0xfc ∷ 0x29 ∷ 0xbe
    ∷ 0xe7 ∷ 0xa7 ∷ []

-- `u32::from_be_bytes` of four bytes
abbrev pub be32_of : ℕ → ℕ → ℕ → ℕ → ℕ
be32_of b0 b1 b2 b3 = ((b0 * 256 + b1) * 256 + b2) * 256 + b3

-- `read_be32(&data[at..at + 4])`; its callers have checked that the four bytes are there.
unfoldable pub read_be32 : List ℕ → ℕ → ℕ
read_be32 p at =
    be32_of (get_or p at 0) (get_or p (at + 1) 0) (get_or p (at + 2) 0) (get_or p (at + 3) 0)

-- The four bytes that `write_be32` stores (`u32::to_be_bytes`).
unfoldable pub write_be32 : ℕ → List ℕ
write_be32 val = val / 2 ^ 24 % 256 ∷ val / 2 ^ 16 % 256 ∷ val / 2 ^ 8 % 256 ∷ val % 256 ∷ []
