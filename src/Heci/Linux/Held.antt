-- ===== src/Heci/Linux/Held.antt =====
-- The descriptor of the Linux HeciContext through its life: src/heci/linux.rs.
use amt_uefi_boot_app.Prelude.{
  List, [], Option, ◌≡◌, ℕ, none, some, ◌∷◌, subst, refl, Bool-cases, leb, min, length, inl, inr,
}
use amt_uefi_boot_app.Heci.Linux.{
  Kernel, HeciContext, Call, opened, not_opened, used, closed, Ret, returned, failed, new, init,
  open_device, open_paths, connect_client_by_uuid, send, receive, close, drop_context, close_fd,
  attempted, on_connect, on_write, on_read, Errno, Linux, with_call,
}

-- After these calls this descriptor is held: one at a time, closed once, and used while it is held.
pub data Held : List Call → Option ℕ → Type 0 where
  nothing : Held [] none
  opens : {calls : List Call} (fd : ℕ) → Held calls none → Held (opened fd ∷ calls) (some fd)
  fails : {calls : List Call} {held : Option ℕ} → Held calls held → Held (not_opened ∷ calls) held
  uses : {calls : List Call} {held : Option ℕ} → Held calls held → Held (used held ∷ calls) held
  closes : {calls : List Call} {fd : ℕ} → Held calls (some fd) → Held (closed fd ∷ calls) none

module _ (K : Kernel) where
  -- The contexts that the program can have: each starts with `new`, and goes through the methods
  -- in any order, whether they succeed or not.
  pub data Lived : HeciContext K → Type 0 where
    started : (s : K.State) → Lived (new K (record { state = s; calls = [] })).1
    started_anew : {c : HeciContext K} → Lived c → Lived (init K c).1
    connected :
        {c : HeciContext K} (uuid : List ℕ) → Lived c → Lived (connect_client_by_uuid K uuid c).1
    sent : {c : HeciContext K} (bytes : List ℕ) → Lived c → Lived (send K bytes c).1
    received : {c : HeciContext K} (buf : List ℕ) → Lived c → Lived (receive K buf c).1
    shut : {c : HeciContext K} → Lived c → Lived (close K c)

  IsHeld : HeciContext K → Type 0
  IsHeld c = Held c.os.calls c.fd

  close_fd-IsHeld :
      (held : Option ℕ) (c : HeciContext K)
      → c.fd ≡ held
      → Held c.os.calls held
      → IsHeld (close_fd K held c) × ((close_fd K held c).fd ≡ none)
  unfolding IsHeld
  close_fd-IsHeld none c e h = (rw e h, e)
  close_fd-IsHeld (some fd) c e h = (closes h, refl)

  closed-IsHeld : (c : HeciContext K) → IsHeld c → IsHeld (close_fd K c.fd c)
  unfolding IsHeld
  closed-IsHeld c h = (close_fd-IsHeld c.fd c refl h).0

  closed-none : (c : HeciContext K) → IsHeld c → (close_fd K c.fd c).fd ≡ none
  unfolding IsHeld
  closed-none c h = (close_fd-IsHeld c.fd c refl h).1

  attempted-IsHeld :
      (r : Ret ℕ × K.State) (next : Errno → Linux K (Unit {0})) (c : HeciContext K)
      → c.fd ≡ none
      → IsHeld c
      → ((e : Errno) (d : HeciContext K) → d.fd ≡ none → IsHeld d → IsHeld (next e d).1)
      → IsHeld (attempted K r next c).1
  unfolding IsHeld
  attempted-IsHeld (returned fd, s) next c f h n = opens fd (subst (Held c.os.calls) f h)
  attempted-IsHeld (failed e, s) next c f h n = n e (with_call K c not_opened s) f (fails h)

  open_paths-IsHeld :
      (paths : List (List ℕ)) (e : Errno) (c : HeciContext K)
      → c.fd ≡ none
      → IsHeld c
      → IsHeld (open_paths K paths e c).1
  unfolding open_paths
  open_paths-IsHeld [] e c f h = h
  open_paths-IsHeld (path ∷ rest) e c f h =
      attempted-IsHeld _ _ c f h (λ d b. open_paths-IsHeld rest d b)

  open_device-IsHeld : (c : HeciContext K) → c.fd ≡ none → IsHeld c → IsHeld (open_device K c).1
  unfolding open_device
  open_device-IsHeld c f h = open_paths-IsHeld _ _ c f h

  reopened-IsHeld : (c : HeciContext K) → IsHeld c → IsHeld (open_device K (close_fd K c.fd c)).1
  reopened-IsHeld c h = open_device-IsHeld _ (closed-none c h) (closed-IsHeld c h)

  new-IsHeld : (s : K.State) → IsHeld (new K (record { state = s; calls = [] })).1
  unfolding new IsHeld
  new-IsHeld s =
      open_device-IsHeld
        (record { fd = none; max_msg_len = 0; os = record { state = s; calls = [] } }) refl nothing

  on_connect-IsHeld :
      (r : Ret (List ℕ) × K.State) (c : HeciContext K) → IsHeld c → IsHeld (on_connect K r c).1
  unfolding IsHeld
  on_connect-IsHeld (returned buf, s) c h = uses h
  on_connect-IsHeld (failed e, s) c h = uses h

  on_write-IsHeld : (r : Ret ℕ × K.State) (c : HeciContext K) → IsHeld c → IsHeld (on_write K r c).1
  unfolding IsHeld
  on_write-IsHeld (returned n, s) c h = uses h
  on_write-IsHeld (failed e, s) c h = uses h

  on_read-IsHeld :
      (buf : List ℕ) (r : Ret (ℕ × List ℕ) × K.State) (c : HeciContext K)
      → IsHeld c
      → IsHeld (on_read K buf r c).1
  unfolding IsHeld
  on_read-IsHeld buf (returned (n, tmp_buf), s) c h =
      elim (Bool-cases (leb (min n (length buf)) (length tmp_buf))) [
        | inl e ↦ rw e (uses h)
        | inr e ↦ rw e (uses h)
      ]
  on_read-IsHeld buf (failed e, s) c h = uses h

  shut-IsHeld : (c : HeciContext K) → IsHeld c → IsHeld (close K c)
  unfolding IsHeld close
  shut-IsHeld c h = closed-IsHeld c h

  Lived-IsHeld : {c : HeciContext K} → Lived c → IsHeld c
  unfolding init connect_client_by_uuid send receive
  Lived-IsHeld (started s) = new-IsHeld s
  Lived-IsHeld (started_anew {c} l) = reopened-IsHeld c (Lived-IsHeld l)
  Lived-IsHeld (connected {c} uuid l) = on_connect-IsHeld _ c (Lived-IsHeld l)
  Lived-IsHeld (sent {c} bytes l) = on_write-IsHeld _ c (Lived-IsHeld l)
  Lived-IsHeld (received {c} buf l) = on_read-IsHeld buf _ c (Lived-IsHeld l)
  Lived-IsHeld (shut {c} l) = shut-IsHeld c (Lived-IsHeld l)

  -- Whatever the system calls return, and in whatever order the methods are called: at most one
  -- descriptor is open at a time, each is closed at most once, the calls between go to it, and fd
  -- is the one that is open, or -1. After the drop none is open.
  pub Lived-Held :
      {c : HeciContext K} → Lived c → Held c.os.calls c.fd × Held (drop_context K c).os.calls none
  unfolding IsHeld drop_context
  Lived-Held {c} l =
      let h = Lived-IsHeld l in
      (h, subst (Held (close_fd K c.fd c).os.calls) (closed-none c h) (closed-IsHeld c h))
