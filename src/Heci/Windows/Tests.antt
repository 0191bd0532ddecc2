-- ===== src/Heci/Windows/Tests.antt =====
-- The Windows context over a driver that does not answer.
use amt_uefi_boot_app.Outcome.{err, timeout}
use amt_uefi_boot_app.Prelude.{
  ℕ, some, replicate, [], ◌≡◌, codes, ◌+◌, none, ◌∷◌, length, false, refl,
}
use amt_uefi_boot_app.Heci.Windows.{
  Api, HeciContext, pending, done, send, receive, connect_client_by_uuid, init, event_made, io_left,
  event_closed, amthi_uuid, timed,
}
use amt_uefi_boot_app.Heci.Windows.Tracked.{Tracked, nothing, receive-Tracked, left_by}

-- The state is the next handle.
abbrev silent_driver : Api
silent_driver = record {
  State = ℕ;
  get_class_devs = λ n. (some n, n + 1);
  enum_interfaces = λ d n. (some [], n);
  required_size = λ d iface n. (40, n);
  interface_detail = λ d iface size n. (some (codes "mei"), n);
  create_file = λ path n. (some n, n + 1);
  create_event = λ n. (some n, n + 1);
  device_io_control = λ handle code in_buf out_buf event n. (done 8 (0 ∷ 16 ∷ 0 ∷ 0 ∷ []), n);
  write_file = λ handle bytes event n. (done (length bytes) bytes, n);
  read_file = λ handle buf event n. (pending, n);
  wait = λ event ms n. (false, n);
  overlapped_result = λ handle event n. ((0, []), n);
  destroy_list = λ d n. (tt, n);
  close_handle = λ event n. (tt, n);
}

abbrev fresh_context : HeciContext silent_driver
fresh_context = record { handle = some 4; max_msg_len = 4096; state = 8; calls = [] }

-- The read is still under way when `receive` gives its buffer free.
receive_leaves_read :
    let (r, d) = receive silent_driver (replicate 4 0) fresh_context in
    (r ≡ err timeout) × (d.calls ≡ event_closed 8 ∷ io_left 8 ∷ event_made 8 ∷ [])
unfolding receive timed
receive_leaves_read = (refl, refl)

receive-Tracked_example :
    let (r, d) = receive silent_driver (replicate 4 0) fresh_context in
    let (s, e) = send silent_driver (codes "abc") fresh_context in
    let (p, f) = connect_client_by_uuid silent_driver amthi_uuid fresh_context in
    let (q, g) = init silent_driver fresh_context in
    Tracked d.calls none none (0 + left_by r)
    × Tracked e.calls none none (0 + left_by s)
    × Tracked f.calls none none (0 + left_by p)
    × Tracked g.calls none none (0 + left_by q)
receive-Tracked_example =
    receive-Tracked silent_driver (codes "abc") (replicate 4 0) amthi_uuid 0 fresh_context nothing
