-- ===== src/Lme/Process/Data.antt =====
-- Channel data: what `process_apf` stores and answers.
use amt_uefi_boot_app.Prelude.{
  ℕ, if◌then◌else◌, leb, ◌+◌, ◌-◌, ◌^◌, ◌≤◌, ◌<◌, ◌≡◌, List, ◌++◌, arith, length, take, slice,
  length-slice, take-blit, take_all, get_or, ◌≢◌, ◌∷◌, [],
}
use amt_uefi_boot_app.Lme.Apf.{read_be32, write_be32, apf_channel_data}
use amt_uefi_boot_app.Lme.Frames.{channel_data_bytes}
use amt_uefi_boot_app.Lme.Transport.{Heci}
use amt_uefi_boot_app.Lme.Session.{Session, raw_send}
use amt_uefi_boot_app.Lme.Process.{
  process_apf, store_data, on_channel_data, on_open_confirmation, on_window_adjust,
  on_channel_close, on_service_request, on_global_request, on_keepalive,
}

-- What has been received: `rx_buf[..rx_len]`.
abbrev pub content : {H : Heci} → Session H → List ℕ
content s = take s.rx_len s.rx_buf

-- A word that was written is read back, wherever it stands.
pub read-write_be32 : (v : ℕ) (rest : List ℕ) → v < 2 ^ 32 → read_be32 (write_be32 v ++ rest) 0 ≡ v
unfolding read_be32 write_be32
read-write_be32 v rest h = omega arith

-- The parts of a data message.
pub read_be32-data :
    (channel : ℕ) (payload : List ℕ)
    → length payload < 2 ^ 32
    → read_be32 (channel_data_bytes channel payload) 5 ≡ length payload
unfolding read_be32 channel_data_bytes write_be32
read_be32-data channel payload h = omega arith

pub length-channel_data_bytes :
    (channel : ℕ) (payload : List ℕ)
    → length (channel_data_bytes channel payload) ≡ 9 + length payload
unfolding channel_data_bytes write_be32
length-channel_data_bytes channel payload = omega arith

pub slice-channel_data_bytes :
    (channel : ℕ) (payload : List ℕ)
    → slice (channel_data_bytes channel payload) 9 (9 + length payload) ≡ payload
unfolding channel_data_bytes write_be32
slice-channel_data_bytes channel payload = take_all (9 + length payload - 9) payload (omega arith)

module _ {H : Heci} (s : Session H) where
  content-store_data :
      (m : List ℕ) (n : ℕ)
      → s.rx_len + n ≤ length s.rx_buf
      → 9 + n ≤ length m
      → (content (store_data H m n s).1 ≡ content s ++ slice m 9 (9 + n))
        × ((store_data H m n s).1.rx_len ≡ s.rx_len + n)
  unfolding store_data raw_send
  content-store_data m n fits whole = ground (
    arith,
    length-slice m 9 (9 + n),
    take-blit s.rx_buf s.rx_len (s.rx_len + n) (slice m 9 (9 + n)),
  )

  -- A data message that the buffer has room for adds exactly its payload to what was received;
  -- one that it has no room for leaves what was received as it was.
  pub content-process_apf :
      (channel : ℕ) (payload : List ℕ)
      → 0 < length payload
      → length payload < 2 ^ 32
      → content (process_apf H (channel_data_bytes channel payload) s).1 ≡ (
          if leb (s.rx_len + length payload) (length s.rx_buf)
          then content s ++ payload
          else content s)
  unfolding process_apf on_channel_data channel_data_bytes
  content-process_apf channel payload pos small = ground (
    arith,
    read_be32-data channel payload small,
    length-channel_data_bytes channel payload,
    slice-channel_data_bytes channel payload,
    content-store_data (channel_data_bytes channel payload) (length payload),
  )

  -- The same for a message with room, with the count of received bytes.
  pub process_data_lem :
      (channel : ℕ) (payload : List ℕ)
      → 0 < length payload
      → length payload < 2 ^ 32
      → s.rx_len + length payload ≤ length s.rx_buf
      → let t = (process_apf H (channel_data_bytes channel payload) s).1 in
        (content t ≡ content s ++ payload) × (t.rx_len ≡ s.rx_len + length payload)
  unfolding process_apf on_channel_data channel_data_bytes
  process_data_lem channel payload pos small fits = ground (
    arith,
    read_be32-data channel payload small,
    length-channel_data_bytes channel payload,
    slice-channel_data_bytes channel payload,
    content-store_data (channel_data_bytes channel payload) (length payload),
  )

  -- Any other message leaves what was received as it was.
  pub process_other_lem :
      (m : List ℕ)
      → get_or m 0 0 ≢ apf_channel_data
      → let t = (process_apf H m s).1 in (t.rx_buf ≡ s.rx_buf) × (t.rx_len ≡ s.rx_len)
  unfolding process_apf on_open_confirmation on_window_adjust on_channel_close on_service_request
      on_global_request on_keepalive raw_send
  process_other_lem [] ne = ground arith
  process_other_lem (ty ∷ m) ne = ground arith
