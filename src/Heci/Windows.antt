-- ===== src/Heci/Windows.antt =====
-- The Windows target of HeciContext: src/heci/windows.rs. The calls of the system are a parameter,
-- and those that open or close something stand in a trace. `none` is INVALID_HANDLE_VALUE, or the
-- null handle of an event.
use Prim.Native.Nat.{max}
use amt_uefi_boot_app.Prelude.{
  ℕ, Option, List, none, Bool, ◌∷◌, ◌*◌, [], replicate, min, ◌^◌, read_le32, length, some, ◌+◌,
  if◌then◌else◌, leb, ◌%◌, ◌==◌, blit, take, bit_or,
}
pub mod Tracked
mod Tests
use amt_uefi_boot_app.Outcome.{
  Action, Outcome, ok, modify, ◌>>=◌, ◌>>◌, fail, pure, device_error, not_found, in_bounds, timeout,
}

-- What an overlapped call comes back with: a count and its buffer, ERROR_IO_PENDING, or another
-- error.
pub data Io : Type 0 where
  done : ℕ → List ℕ → Io
  pending refused : Io

-- The calls of SetupAPI, of the file and of the event, with what they answer. `wait` tells whether
-- the event was signalled in time; `overlapped_result` gives the count and the buffer as they are
-- then.
pub record Api : Type 1 where
  pub State : Type 0
  pub get_class_devs : State → Option ℕ × State
  pub enum_interfaces : ℕ → State → Option (List ℕ) × State
  pub required_size : ℕ → List ℕ → State → ℕ × State
  pub interface_detail : ℕ → List ℕ → ℕ → State → Option (List ℕ) × State
  pub create_file : List ℕ → State → Option ℕ × State
  pub create_event : State → Option ℕ × State
  pub device_io_control : Option ℕ → ℕ → List ℕ → List ℕ → ℕ → State → Io × State
  pub write_file : Option ℕ → List ℕ → ℕ → State → Io × State
  pub read_file : Option ℕ → List ℕ → ℕ → State → Io × State
  pub wait : ℕ → Option ℕ → State → Bool × State
  pub overlapped_result : Option ℕ → ℕ → State → (ℕ × List ℕ) × State
  pub destroy_list : ℕ → State → Unit {0} × State
  pub close_handle : ℕ → State → Unit {0} × State

pub data Call : Type 0 where
  list_made list_destroyed event_made event_closed io_left io_ended : ℕ → Call

pub record HeciContext (W : Api) : Type 0 where
  pub handle : Option ℕ
  pub max_msg_len : ℕ
  pub state : W.State
  pub calls : List Call

abbrev pub amthi_uuid : List ℕ
amthi_uuid =
    0x28 ∷ 0x00 ∷ 0xF8 ∷ 0x12 ∷ 0xB7 ∷ 0xB4 ∷ 0x2D ∷ 0x4B ∷ 0xAC ∷ 0xA8 ∷ 0x46 ∷ 0xE0 ∷ 0xFF ∷ 0x65
    ∷ 0x81 ∷ 0x4C ∷ []

abbrev pub file_device_heci : ℕ
file_device_heci = 0x8000

unfoldable pub ctl_code : ℕ → ℕ → ℕ → ℕ → ℕ
ctl_code device_type function method access =
    bit_or
      (bit_or (bit_or (device_type * 2 ^ 16 % 2 ^ 32) (access * 2 ^ 14 % 2 ^ 32))
        (function * 2 ^ 2 % 2 ^ 32))
      method

module _ (W : Api) where
  abbrev pub Win : Type 0 → Type 0
  Win = Action (HeciContext W)

  -- A call of the system, and a mark in the trace.
  abbrev pub call : {A : Type 0} → (W.State → A × W.State) → Win A
  call f c = let (a, s) = f c.state in (ok a, record c { state = s })

  abbrev pub mark : Call → Win (Unit {0})
  mark what = modify (λ c. record c { calls = what ∷ c.calls })

  abbrev pub close_event : ℕ → Win (Unit {0})
  close_event event = call (W.close_handle event) >> mark (event_closed event)

  abbrev pub destroy : ℕ → Win (Unit {0})
  destroy dev_info = call (W.destroy_list dev_info) >> mark (list_destroyed dev_info)

  abbrev pub on_file : Option ℕ → Win (Unit {0})
  on_file none = fail device_error
  on_file (some handle) = modify (λ c. record c { handle = some handle })

  abbrev pub on_detail : Option (List ℕ) → Win (Unit {0})
  on_detail none = fail device_error
  on_detail (some path) = call (W.create_file path) >>= on_file

  abbrev pub on_interface : ℕ → Option (List ℕ) → Win (Unit {0})
  on_interface dev_info none = destroy dev_info >> fail not_found
  on_interface dev_info (some iface) = call (W.required_size dev_info iface) >>= λ size.
      if size == 0
      then destroy dev_info >> fail device_error
      else call (W.interface_detail dev_info iface size) >>= λ detail.
          destroy dev_info >> on_detail detail

  abbrev pub on_list : Option ℕ → Win (Unit {0})
  on_list none = fail not_found
  on_list (some dev_info) =
      mark (list_made dev_info) >> (call (W.enum_interfaces dev_info) >>= on_interface dev_info)

  unfoldable pub open_device : Win (Unit {0})
  open_device = call W.get_class_devs >>= on_list

  -- From a state, the context of `HeciContext::new`, or what its failure leaves.
  unfoldable pub new : W.State → Outcome (Unit {0}) × HeciContext W
  new s = open_device (record { handle = none; max_msg_len = 0; state = s; calls = [] })

  unfoldable pub init : Win (Unit {0})
  init c = open_device (record c { handle = none })

  -- With a new event, if there is one.
  abbrev pub on_event : {A : Type 0} → (ℕ → Win A) → Option ℕ → Win A
  on_event k none = fail device_error
  on_event k (some event) = mark (event_made event) >> k event

  -- The result of a call that has ended.
  abbrev pub ended : Option ℕ → ℕ → Win (ℕ × List ℕ)
  ended handle event = call (W.overlapped_result handle event) >>= λ result.
      mark (io_ended event) >> (close_event event >> pure result)

  abbrev pub on_ioctl : Option ℕ → ℕ → Io → Win (ℕ × List ℕ)
  on_ioctl handle event (done n out) = close_event event >> pure (n, out)
  on_ioctl handle event refused = close_event event >> fail device_error
  on_ioctl handle event pending =
      mark (io_left event) >> (call (W.wait event none) >>= λ signalled. ended handle event)

  unfoldable pub do_ioctl : ℕ → List ℕ → List ℕ → Win (ℕ × List ℕ)
  do_ioctl code in_buf out_buf c =
      (call W.create_event
          >>= on_event (λ event.
            call (W.device_io_control c.handle code in_buf out_buf event)
            >>= on_ioctl c.handle event))
        c

  unfoldable pub connect_client_by_uuid : List ℕ → Win (Unit {0})
  connect_client_by_uuid uuid =
      do_ioctl (ctl_code file_device_heci 0x801 0 3) uuid (replicate 16 0) >>= λ (n, out).
      modify (λ c. record c { max_msg_len = read_le32 out 0 })

  abbrev pub connect_amthi : Win (Unit {0})
  connect_amthi = connect_client_by_uuid amthi_uuid

  abbrev pub connect_client : List ℕ → Win (Unit {0})
  connect_client = connect_client_by_uuid

  -- WriteFile and ReadFile have come back: the wait is `ms` milliseconds.
  abbrev pub on_io : Option ℕ → ℕ → ℕ → Io → Win (ℕ × List ℕ)
  on_io handle ms event (done n out) = close_event event >> pure (n, out)
  on_io handle ms event refused = close_event event >> fail device_error
  on_io handle ms event pending =
      mark (io_left event)
      >> (call (W.wait event (some ms)) >>= λ signalled.
          if signalled then ended handle event else close_event event >> fail timeout)

  -- WriteFile or ReadFile with a new event.
  unfoldable pub timed : ℕ → (Option ℕ → ℕ → W.State → Io × W.State) → Win (ℕ × List ℕ)
  timed ms start c =
      (call W.create_event
          >>= on_event (λ event. call (start c.handle event) >>= on_io c.handle ms event))
        c

  unfoldable pub send : List ℕ → Win (Unit {0})
  send bytes = timed 5000 (λ handle. W.write_file handle bytes) >>= λ written. pure tt

  -- The count that is returned, and the buffer of the caller.
  abbrev pub copied : List ℕ → ℕ × List ℕ → Win (ℕ × List ℕ)
  copied buf (n, tmp_buf) =
      let copy_len = min n (length buf) in
      in_bounds (leb copy_len (length tmp_buf)) >> pure (n, blit buf 0 (take copy_len tmp_buf))

  unfoldable pub receive : List ℕ → Win (ℕ × List ℕ)
  receive buf c =
      (timed 10000 (λ handle. W.read_file handle (replicate (max c.max_msg_len 4096) 0))
          >>= copied buf)
        c

  unfoldable pub close : HeciContext W → HeciContext W
  close c = record c { handle = none; max_msg_len = 0 }
