-- ===== src/Heci/Windows/Tracked.antt =====
-- What src/heci/windows.rs opens and closes on each path.
use amt_uefi_boot_app.Outcome.{
  Outcome, Error, amt_status, ok, and_then, http_status, err, timeout, panics, not_found, waits,
  device_error, buffer_too_small, unsupported, access_denied, protocol_error, aborted, ◌>>=◌,
}
use amt_uefi_boot_app.Prelude.{
  List, ℕ, Option, [], none, some, subst, Bool-cases, ◌∷◌, ◌+◌, arith, inl, inr, ◌≡◌, leb, ◌==◌,
  min, length, refl, replicate,
}
use amt_uefi_boot_app.Heci.Windows.{
  Api, Call, HeciContext, Io, Win, connect_client_by_uuid, copied, do_ioctl, done, event_closed,
  event_made, init, io_ended, io_left, list_destroyed, list_made, on_detail, on_event, on_file,
  on_interface, on_io, on_ioctl, on_list, open_device, pending, receive, refused, send, ctl_code,
  file_device_heci, timed, max, call,
}

-- After these calls: the event and the device list that are open, at most one of each, and the
-- number of calls that the system has not ended.
pub data Tracked : List Call → Option ℕ → Option ℕ → ℕ → Type 0 where
  nothing : Tracked [] none none 0
  made_list :
      {t : List Call} {n : ℕ} (d : ℕ)
      → Tracked t none none n
      → Tracked (list_made d ∷ t) none (some d) n
  destroyed_list :
      {t : List Call} {n d : ℕ}
      → Tracked t none (some d) n
      → Tracked (list_destroyed d ∷ t) none none n
  made_event :
      {t : List Call} {n : ℕ} (e : ℕ)
      → Tracked t none none n
      → Tracked (event_made e ∷ t) (some e) none n
  left_io :
      {t : List Call} {n e : ℕ}
      → Tracked t (some e) none n
      → Tracked (io_left e ∷ t) (some e) none (n + 1)
  ended_io :
      {t : List Call} {n e : ℕ}
      → Tracked t (some e) none (n + 1)
      → Tracked (io_ended e ∷ t) (some e) none n
  closed_event :
      {t : List Call} {n e : ℕ}
      → Tracked t (some e) none n
      → Tracked (event_closed e ∷ t) none none n

abbrev timeouts : Error → ℕ
timeouts timeout = 1
timeouts not_found = 0
timeouts device_error = 0
timeouts buffer_too_small = 0
timeouts unsupported = 0
timeouts access_denied = 0
timeouts protocol_error = 0
timeouts aborted = 0
timeouts (amt_status s) = 0
timeouts (http_status s) = 0

-- 1 for a call that times out.
abbrev pub left_by : {A : Type 0} → Outcome A → ℕ
left_by (ok a) = 0
left_by (err e) = timeouts e
left_by panics = 0
left_by waits = 0

module _ (W : Api) where
  -- No event and no list is open, and `n` calls are still to end.
  abbrev pub Clean : ℕ → HeciContext W → Type 0
  Clean n c = Tracked c.calls none none n

  Leaves : {A : Type 0} → ℕ → Outcome A × HeciContext W → Type 0
  Leaves n (o, c) = Tracked c.calls none none (n + left_by o)

  Leaves-and_then :
      {A B : Type 0} (n : ℕ) (k : A → Win W B) (r : Outcome A × HeciContext W)
      → Leaves n r
      → ((a : A) (c : HeciContext W) → Clean n c → Leaves n (k a c))
      → Leaves n (and_then r k)
  unfolding Leaves
  Leaves-and_then n k (ok a, c) h f = f a c (subst (Tracked c.calls none none) (omega arith) h)
  Leaves-and_then n k (err e, c) h f = h
  Leaves-and_then n k (panics, c) h f = h
  Leaves-and_then n k (waits, c) h f = h

  Clean-Leaves : {n : ℕ} (t : List Call) → Tracked t none none n → Tracked t none none (n + 0)
  Clean-Leaves t h = subst (Tracked t none none) (omega arith) h

  done-Leaves : {A : Type 0} (n : ℕ) (a : A) (c : HeciContext W) → Clean n c → Leaves n (ok a, c)
  unfolding Leaves
  done-Leaves n a c h = Clean-Leaves _ h

  failed-Leaves :
      (n : ℕ) (e : Error) (c : HeciContext W)
      → timeouts e ≡ 0
      → Clean n c
      → Leaves {A = Unit {0}} n (err e, c)
  unfolding Leaves
  failed-Leaves n e c z h = subst (Tracked c.calls none none) (omega (arith, z)) h

  on_io-Leaves :
      (handle : Option ℕ) (ms event n : ℕ) (io : Io) (c : HeciContext W)
      → Tracked c.calls (some event) none n
      → Leaves n (on_io W handle ms event io c)
  unfolding Leaves
  on_io-Leaves handle ms event n (done m out) c h = Clean-Leaves _ (closed_event h)
  on_io-Leaves handle ms event n refused c h = Clean-Leaves _ (closed_event h)
  on_io-Leaves handle ms event n pending c h =
      elim (Bool-cases (W.wait event (some ms) c.state).0) [
        | inl e ↦ rw e (Clean-Leaves _ (closed_event (ended_io (left_io h))))
        | inr e ↦ rw e (closed_event (left_io h))
      ]

  on_ioctl-Leaves :
      (handle : Option ℕ) (event n : ℕ) (io : Io) (c : HeciContext W)
      → Tracked c.calls (some event) none n
      → Leaves n (on_ioctl W handle event io c)
  unfolding Leaves
  on_ioctl-Leaves handle event n (done m out) c h = Clean-Leaves _ (closed_event h)
  on_ioctl-Leaves handle event n refused c h = Clean-Leaves _ (closed_event h)
  on_ioctl-Leaves handle event n pending c h = Clean-Leaves _ (closed_event (ended_io (left_io h)))

  on_event-Leaves :
      {A : Type 0} (n : ℕ) (k : ℕ → Win W A) (event : Option ℕ) (c : HeciContext W)
      → Clean n c
      → ((e : ℕ) (d : HeciContext W) → Tracked d.calls (some e) none n → Leaves n (k e d))
      → Leaves n (on_event W k event c)
  unfolding Leaves
  on_event-Leaves n k none c h f = Clean-Leaves _ h
  on_event-Leaves n k (some e) c h f = f e _ (made_event e h)

  timed-Leaves :
      (ms : ℕ) (start : Option ℕ → ℕ → W.State → Io × W.State) (n : ℕ) (c : HeciContext W)
      → Clean n c
      → Leaves n (timed W ms start c)
  unfolding timed
  timed-Leaves ms start n c h =
      on_event-Leaves n (λ event. call W (start c.handle event) >>= on_io W c.handle ms event)
        (W.create_event c.state).0 (call W W.create_event c).1 h
        (λ e d g.
          on_io-Leaves c.handle ms e n (start c.handle e d.state).0 (call W (start c.handle e) d).1
            g)

  send-Leaves : (bytes : List ℕ) (n : ℕ) (c : HeciContext W) → Clean n c → Leaves n (send W bytes c)
  unfolding send
  send-Leaves bytes n c h =
      Leaves-and_then n _ _ (timed-Leaves 5000 (λ handle. W.write_file handle bytes) n c h)
        (λ written d g. done-Leaves n tt d g)

  copied-Leaves :
      (buf tmp_buf : List ℕ) (m n : ℕ) (c : HeciContext W)
      → Clean n c
      → Leaves n (copied W buf (m, tmp_buf) c)
  unfolding Leaves
  copied-Leaves buf tmp_buf m n c h =
      elim (Bool-cases (leb (min m (length buf)) (length tmp_buf))) [
        | inl e ↦ rw e (Clean-Leaves _ h)
        | inr e ↦ rw e (Clean-Leaves _ h)
      ]

  receive-Leaves :
      (buf : List ℕ) (n : ℕ) (c : HeciContext W) → Clean n c → Leaves n (receive W buf c)
  unfolding receive
  receive-Leaves buf n c h =
      Leaves-and_then n _ _
        (timed-Leaves 10000 (λ handle. W.read_file handle (replicate (max c.max_msg_len 4096) 0)) n
          c h)
        (λ (m, tmp_buf) d g. copied-Leaves buf tmp_buf m n d g)

  do_ioctl-Leaves :
      (code : ℕ) (in_buf out_buf : List ℕ) (n : ℕ) (c : HeciContext W)
      → Clean n c
      → Leaves n (do_ioctl W code in_buf out_buf c)
  unfolding do_ioctl
  do_ioctl-Leaves code in_buf out_buf n c h =
      let start = W.device_io_control c.handle code in_buf out_buf in
      on_event-Leaves n (λ event. call W (start event) >>= on_ioctl W c.handle event)
        (W.create_event c.state).0 (call W W.create_event c).1 h
        (λ e d g. on_ioctl-Leaves c.handle e n (start e d.state).0 (call W (start e) d).1 g)

  connect-Leaves :
      (uuid : List ℕ) (n : ℕ) (c : HeciContext W)
      → Clean n c
      → Leaves n (connect_client_by_uuid W uuid c)
  unfolding connect_client_by_uuid
  connect-Leaves uuid n c h =
      Leaves-and_then n _ _
        (do_ioctl-Leaves (ctl_code file_device_heci 0x801 0 3) uuid (replicate 16 0) n c h)
        (λ r d g. done-Leaves n tt _ g)

  on_file-Leaves :
      (file : Option ℕ) (n : ℕ) (c : HeciContext W) → Clean n c → Leaves n (on_file W file c)
  unfolding Leaves
  on_file-Leaves none n c h = Clean-Leaves _ h
  on_file-Leaves (some handle) n c h = Clean-Leaves _ h

  on_detail-Leaves :
      (detail : Option (List ℕ)) (n : ℕ) (c : HeciContext W)
      → Clean n c
      → Leaves n (on_detail W detail c)
  on_detail-Leaves none n c h = failed-Leaves n device_error c refl h
  on_detail-Leaves (some path) n c h = on_file-Leaves _ n _ h

  on_interface-Leaves :
      (iface : Option (List ℕ)) (dev_info n : ℕ) (c : HeciContext W)
      → Tracked c.calls none (some dev_info) n
      → Leaves n (on_interface W dev_info iface c)
  on_interface-Leaves none dev_info n c h = failed-Leaves n not_found _ refl (destroyed_list h)
  on_interface-Leaves (some iface) dev_info n c h =
      elim (Bool-cases ((W.required_size dev_info iface c.state).0 == 0)) [
        | inl e ↦ rw e (failed-Leaves n device_error _ refl (destroyed_list h))
        | inr e ↦ rw e (on_detail-Leaves _ n _ (destroyed_list h))
      ]

  on_list-Leaves :
      (list : Option ℕ) (n : ℕ) (c : HeciContext W) → Clean n c → Leaves n (on_list W list c)
  on_list-Leaves none n c h = failed-Leaves n not_found c refl h
  on_list-Leaves (some dev_info) n c h = on_interface-Leaves _ dev_info n _ (made_list dev_info h)

  open_device-Leaves : (n : ℕ) (c : HeciContext W) → Clean n c → Leaves n (open_device W c)
  unfolding open_device
  open_device-Leaves n c h = on_list-Leaves _ n _ h

  -- With no event and no device list open and `n` overlapped calls not ended by the system, each of
  -- send, receive, the connection and init closes the event and the list that it opens, once and on
  -- every path, and ends its overlapped call, unless it gives Timeout: then the call is not ended.
  pub receive-Tracked :
      (bytes buf uuid : List ℕ) (n : ℕ) (c : HeciContext W)
      → Tracked c.calls none none n
      → let (r, d) = receive W buf c in
        let (s, e) = send W bytes c in
        let (p, f) = connect_client_by_uuid W uuid c in
        let (q, g) = init W c in
        Tracked d.calls none none (n + left_by r)
        × Tracked e.calls none none (n + left_by s)
        × Tracked f.calls none none (n + left_by p)
        × Tracked g.calls none none (n + left_by q)
  unfolding Leaves init
  receive-Tracked bytes buf uuid n c h = (
    receive-Leaves buf n c h,
    send-Leaves bytes n c h,
    connect-Leaves uuid n c h,
    open_device-Leaves n _ h,
  )
