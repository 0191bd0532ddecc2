-- ===== src/Lme/Process/Total.antt =====
-- Which messages `process_apf` survives.
use amt_uefi_boot_app.Prelude.{ℕ, ◌+◌, ◌≤◌, ◌<◌, ◌≡◌, ◌⊎◌, List, arith, length, get_or, true}
use amt_uefi_boot_app.Outcome.{Returns, panics}
use amt_uefi_boot_app.Lme.Apf.{read_be32, apf_channel_data, apf_service_request}
use amt_uefi_boot_app.Lme.Frames.{window_adjust_bytes}
use amt_uefi_boot_app.Lme.Transport.{Heci}
use amt_uefi_boot_app.Lme.Session.{Session}
use amt_uefi_boot_app.Lme.Process.{on_service_request, window_adjust_bytes}

-- A write to the hardware comes back, with success or with an error.
abbrev pub SendReturns : Heci → Type 0
SendReturns H = (me host : ℕ) (m : List ℕ) (c : H.Ctx) → Returns (H.write_msg me host m true c).0

-- A data message that is shorter than the length it states, which the receive buffer has room
-- for, or a service request whose name does not fit the 64 bytes of the answer.
abbrev pub Overruns : (H : Heci) → Session H → List ℕ → Type 0
Overruns H s m =
    ((get_or m 0 0 ≡ apf_channel_data)
      × (9 ≤ length m)
      × (length m < 9 + read_be32 m 5)
      × (s.rx_len + read_be32 m 5 ≤ length s.rx_buf))
    ⊎ ((get_or m 0 0 ≡ apf_service_request)
        × (5 + read_be32 m 1 ≤ length m)
        × (64 < 5 + read_be32 m 1))

module _ {H : Heci} (sends : SendReturns H) (s : Session H) where
  on_service_request_long :
      (m : List ℕ)
      → 5 + read_be32 m 1 ≤ length m
      → 64 < 5 + read_be32 m 1
      → (on_service_request H m s).0 ≡ panics
  unfolding on_service_request
  on_service_request_long m h k = ground arith
