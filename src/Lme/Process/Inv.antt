-- ===== src/Lme/Process/Inv.antt =====
-- The invariant of a session, kept by every message from the management engine.
use amt_uefi_boot_app.Prelude.{
  ℕ, [], ◌∷◌, ◌+◌, ◌^◌, ◌≤◌, ◌<◌, ◌≡◌, List, arith, length, length-blit, slice, length-slice,
}
use amt_uefi_boot_app.Outcome.{ignore}
use amt_uefi_boot_app.Lme.Session.Recv.{IsBytes}
use amt_uefi_boot_app.Lme.Apf.{read_be32}
use amt_uefi_boot_app.Lme.Transport.{Heci}
use amt_uefi_boot_app.Lme.Session.{Session, raw_send, lme_rx_buf_size}
use amt_uefi_boot_app.Lme.Process.{
  process_apf, dispatch, on_open_confirmation, on_window_adjust, store_data, on_channel_data,
  on_channel_close, on_service_request, on_global_request, on_keepalive, ◌∷◌,
}

pub record IsValid (H : Heci) (s : Session H) : Type 0 where
  pub buffer : length s.rx_buf ≡ lme_rx_buf_size
  pub filled : s.rx_len ≤ lme_rx_buf_size
  pub our_word : s.our_channel < 2 ^ 32
  pub amt_word : s.amt_channel < 2 ^ 32
  pub window_word : s.tx_window < 2 ^ 32

pub read_be32-lt : (p : List ℕ) (at : ℕ) → IsBytes p → read_be32 p at < 2 ^ 32
unfolding read_be32
read_be32-lt p at b = omega (arith, b at, b (at + 1), b (at + 2), b (at + 3))

module _ {H : Heci} (s : Session H) (valid : IsValid H s) where
  pub reply-IsValid : (m : List ℕ) → IsValid H (ignore (raw_send H m) s).1
  unfolding raw_send
  reply-IsValid m = ground arith

  on_open_confirmation-IsValid : (m : List ℕ) → IsBytes m → IsValid H (on_open_confirmation H m s).1
  unfolding on_open_confirmation
  on_open_confirmation-IsValid m b =
      ground (arith, read_be32-lt m 1 b, read_be32-lt m 5 b, read_be32-lt m 9 b)

  on_window_adjust-IsValid : (m : List ℕ) → IsValid H (on_window_adjust H m s).1
  unfolding on_window_adjust
  on_window_adjust-IsValid m = ground arith

  on_channel_close-IsValid : IsValid H (on_channel_close H s).1
  unfolding on_channel_close raw_send
  on_channel_close-IsValid = ground arith

  on_service_request-IsValid : (m : List ℕ) → IsValid H (on_service_request H m s).1
  unfolding on_service_request raw_send
  on_service_request-IsValid m = ground arith

  on_global_request-IsValid : (m : List ℕ) → IsValid H (on_global_request H m s).1
  unfolding on_global_request raw_send
  on_global_request-IsValid m = ground arith

  on_keepalive-IsValid : (m : List ℕ) → IsValid H (on_keepalive H m s).1
  unfolding on_keepalive raw_send
  on_keepalive-IsValid m = ground arith

  store_data-IsValid :
      (m : List ℕ) (n : ℕ) → s.rx_len + n ≤ length s.rx_buf → IsValid H (store_data H m n s).1
  unfolding store_data raw_send
  store_data-IsValid m n h =
      ground (arith, length-slice m 9 (9 + n), length-blit s.rx_buf s.rx_len (slice m 9 (9 + n)))

  on_channel_data-IsValid : (m : List ℕ) → IsValid H (on_channel_data H m s).1
  unfolding on_channel_data
  on_channel_data-IsValid m = ground (arith, store_data-IsValid m (read_be32 m 5))

  dispatch-IsValid : (ty : ℕ) (m : List ℕ) → IsBytes m → IsValid H (dispatch H ty m s).1
  unfolding dispatch
  dispatch-IsValid ty m b = ground (
    arith,
    on_open_confirmation-IsValid m b,
    on_window_adjust-IsValid m,
    on_channel_data-IsValid m,
    on_channel_close-IsValid,
    on_service_request-IsValid m,
    on_global_request-IsValid m,
    on_keepalive-IsValid m,
  )

  -- Whatever message arrives and however sending the answer ends, `process_apf` leaves a receive
  -- buffer of 4096 bytes, filled no further than its end, and channel numbers and a window that
  -- are 32-bit words.
  pub process_apf-IsValid : (m : List ℕ) → IsBytes m → IsValid H (process_apf H m s).1
  unfolding process_apf
  process_apf-IsValid [] b = valid
  process_apf-IsValid (ty ∷ m) b = ground (arith, dispatch-IsValid ty (ty ∷ m) b)
