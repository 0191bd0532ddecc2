-- ===== src/Heci/Linux.antt =====
-- The Linux target of HeciContext: src/heci/linux.rs. The system calls are a parameter, and every
-- call stands in a trace. `none` is the descriptor -1.
use Prim.Native.Nat.{max}
use amt_uefi_boot_app.Prelude.{
  ℕ, List, Option, ◌∷◌, none, [], codes, some, min, replicate, ◌++◌, read_le32, length, leb, ◌%◌,
  ◌^◌, blit, take,
}
pub mod Held
mod Tests
use amt_uefi_boot_app.Outcome.{
  Action, Outcome, Error, access_denied, not_found, ok, fail, device_error, err, and_then,
  in_bounds, pure,
}

pub data Errno : Type 0 where
  eacces eperm enotty enodev : Errno
  other : ℕ → Errno

-- What a system call returns: a result, or -1 with `errno`.
pub data Ret (A : Type 0) : Type 0 where
  returned : A → Ret A
  failed : Errno → Ret A

-- `ioctl` gives the buffer as it leaves it; `read` the count of bytes, and its buffer.
pub record Kernel : Type 1 where
  pub State : Type 0
  pub sys_open : List ℕ → State → Ret ℕ × State
  pub sys_ioctl : Option ℕ → ℕ → List ℕ → State → Ret (List ℕ) × State
  pub sys_write : Option ℕ → List ℕ → State → Ret ℕ × State
  pub sys_read : Option ℕ → List ℕ → State → Ret (ℕ × List ℕ) × State
  pub sys_close : ℕ → State → State

pub data Call : Type 0 where
  opened : ℕ → Call
  not_opened : Call
  used : Option ℕ → Call
  closed : ℕ → Call

abbrev pub amthi_uuid : List ℕ
amthi_uuid =
    0x28 ∷ 0x00 ∷ 0xF8 ∷ 0x12 ∷ 0xB7 ∷ 0xB4 ∷ 0x2D ∷ 0x4B ∷ 0xAC ∷ 0xA8 ∷ 0x46 ∷ 0xE0 ∷ 0xFF ∷ 0x65
    ∷ 0x81 ∷ 0x4C ∷ []

abbrev pub ioctl_mei_connect_client : ℕ
ioctl_mei_connect_client = 0xC0104801

abbrev pub open_error : Errno → Error
open_error eacces = access_denied
open_error eperm = access_denied
open_error enotty = not_found
open_error enodev = not_found
open_error (other n) = not_found

abbrev pub connect_error : Errno → Error
connect_error enotty = not_found
connect_error enodev = not_found
connect_error eacces = access_denied
connect_error eperm = access_denied
connect_error (other n) = device_error

-- "/dev/mei0", and "/dev/mei" of older kernels, each with its zero byte.
abbrev pub paths : List (List ℕ)
paths = (codes "/dev/mei0" ++ (0 ∷ [])) ∷ (codes "/dev/mei" ++ (0 ∷ [])) ∷ []

-- The system behind the program and the calls made, the last one first.
pub record System (K : Kernel) : Type 0 where
  pub state : K.State
  pub calls : List Call

pub record HeciContext (K : Kernel) : Type 0 where
  pub fd : Option ℕ
  pub max_msg_len : ℕ
  pub os : System K

module _ (K : Kernel) where
  abbrev pub Linux : Type 0 → Type 0
  Linux = Action (HeciContext K)

  abbrev pub with_call : HeciContext K → Call → K.State → HeciContext K
  with_call c call s = record c { os = record { state = s; calls = call ∷ c.os.calls } }

  abbrev pub attempted : Ret ℕ × K.State → (Errno → Linux (Unit {0})) → Linux (Unit {0})
  attempted (returned fd, s) next c =
      (ok tt, record c { fd = some fd; os = record { state = s; calls = opened fd ∷ c.os.calls } })
  attempted (failed e, s) next c = next e (with_call c not_opened s)

  -- The loop over the paths; `errno` is that of the last call.
  unfoldable pub open_paths : List (List ℕ) → Errno → Linux (Unit {0})
  open_paths [] e c = (err (open_error e), c)
  open_paths (path ∷ rest) e c = attempted (K.sys_open path c.os.state) (open_paths rest) c

  unfoldable pub open_device : Linux (Unit {0})
  open_device = open_paths paths (other 0)

  abbrev pub close_fd : Option ℕ → HeciContext K → HeciContext K
  close_fd none c = c
  close_fd (some fd) c = record c {
    fd = none;
    os = record { state = K.sys_close fd c.os.state; calls = closed fd ∷ c.os.calls };
  }

  -- On a system, the context that `HeciContext::new` gives, or what its failure leaves.
  unfoldable pub new : System K → Outcome (Unit {0}) × HeciContext K
  new os = open_device (record { fd = none; max_msg_len = 0; os = os })

  unfoldable pub init : Linux (Unit {0})
  init c = open_device (close_fd c.fd c)

  abbrev pub on_connect : Ret (List ℕ) × K.State → Linux (Unit {0})
  on_connect (returned buf, s) c =
      (ok tt, record (with_call c (used c.fd) s) { max_msg_len = read_le32 buf 0 })
  on_connect (failed e, s) c = (err (connect_error e), with_call c (used c.fd) s)

  unfoldable pub connect_client_by_uuid : List ℕ → Linux (Unit {0})
  connect_client_by_uuid uuid c =
      on_connect (K.sys_ioctl c.fd ioctl_mei_connect_client uuid c.os.state) c

  abbrev pub connect_amthi : Linux (Unit {0})
  connect_amthi = connect_client_by_uuid amthi_uuid

  abbrev pub connect_client : List ℕ → Linux (Unit {0})
  connect_client = connect_client_by_uuid

  abbrev pub on_write : Ret ℕ × K.State → Linux (Unit {0})
  on_write (returned n, s) c = (ok tt, with_call c (used c.fd) s)
  on_write (failed e, s) c = (err device_error, with_call c (used c.fd) s)

  unfoldable pub send : List ℕ → Linux (Unit {0})
  send data_bytes c = on_write (K.sys_write c.fd data_bytes c.os.state) c

  abbrev pub on_read : List ℕ → Ret (ℕ × List ℕ) × K.State → Linux (ℕ × List ℕ)
  on_read buf (returned (n, tmp_buf), s) c =
      let copy_len = min n (length buf) in
      and_then (in_bounds (leb copy_len (length tmp_buf)) (with_call c (used c.fd) s))
        (λ u. pure (n % 2 ^ 32, blit buf 0 (take copy_len tmp_buf)))
  on_read buf (failed e, s) c = (err device_error, with_call c (used c.fd) s)

  -- The count that is returned, and the buffer of the caller.
  unfoldable pub receive : List ℕ → Linux (ℕ × List ℕ)
  receive buf c = on_read buf (K.sys_read c.fd (replicate (max c.max_msg_len 4096) 0) c.os.state) c

  unfoldable pub close : HeciContext K → HeciContext K
  close c = record (close_fd c.fd c) { max_msg_len = 0 }

  -- `Drop`
  unfoldable pub drop_context : HeciContext K → HeciContext K
  drop_context c = close_fd c.fd c
