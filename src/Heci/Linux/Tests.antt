-- ===== src/Heci/Linux/Tests.antt =====
-- The Linux context over a kernel that only knows /dev/mei.
use amt_uefi_boot_app.Amt.Getters.{get_dns_suffix}
use amt_uefi_boot_app.Amt.Mei.{Mei, pthi_call, check_status, make_header}
use amt_uefi_boot_app.Outcome.{ok, panics}
use amt_uefi_boot_app.Prelude.{
  ℕ, [], replicate, if◌then◌else◌, none, length, ◌≡◌, blit, ◌==◌, some, ◌+◌, codes, ◌∷◌, refl,
}
use amt_uefi_boot_app.Heci.Linux.{
  send, open_device, open_paths, Kernel, returned, failed, other, opened, not_opened, used, new,
  receive, connect_client_by_uuid, amthi_uuid, drop_context, HeciContext, open_paths,
}
use amt_uefi_boot_app.Heci.Linux.Held.{Held, Lived-Held, started, connected, received}

-- The state is the next descriptor.
abbrev older_kernel : Kernel
older_kernel = record {
  State = ℕ;
  sys_open = λ path n. if length path == 9 then (returned n, n + 1) else (failed (other 2), n);
  sys_ioctl = λ fd code buf n. (returned (0 ∷ 16 ∷ 0 ∷ 0 ∷ 1 ∷ []), n);
  sys_write = λ fd bytes n. (returned (length bytes), n);
  sys_read = λ fd buf n. (returned (20, blit buf 0 (codes "answer")), n);
  sys_close = λ fd n. n;
}

abbrev connected_at : HeciContext older_kernel
connected_at =
    (connect_client_by_uuid older_kernel amthi_uuid
      (new older_kernel (record { state = 3; calls = [] })).1).1

connected_at_runs : connected_at.os.calls ≡ used (some 3) ∷ opened 3 ∷ not_opened ∷ []
unfolding connect_client_by_uuid new open_device open_paths
connected_at_runs = refl

-- `read` gives 20 bytes, and the buffer holds 4.
receive_counts_more : (receive older_kernel (replicate 4 0) connected_at).0 ≡ ok (20, codes "answ")
unfolding connect_client_by_uuid new open_device open_paths receive blit
receive_counts_more = refl

Lived-Held_example :
    let c = (receive older_kernel (replicate 4 0) connected_at).1 in
    Held c.os.calls c.fd × Held (drop_context older_kernel c).os.calls none
Lived-Held_example =
    Lived-Held older_kernel (received (replicate 4 0) (connected amthi_uuid (started 3)))

-- A kernel that gives a full page for a command with a buffer of 1100 bytes.
abbrev page_kernel : Kernel
page_kernel = record {
  State = ℕ;
  sys_open = λ path n. (returned n, n + 1);
  sys_ioctl = λ fd code buf n. (returned buf, n);
  sys_write = λ fd bytes n. (returned (length bytes), n);
  sys_read = λ fd buf n. (returned (4096, buf), n);
  sys_close = λ fd n. n;
}

abbrev page_mei : Mei
page_mei = record {
  Ctx = HeciContext page_kernel;
  send = send page_kernel;
  receive = receive page_kernel;
}

-- The slice of the answer up to the count that `receive` returns is out of bounds.
suffix_panics :
    (get_dns_suffix page_mei
      (record { fd = some 3; max_msg_len = 4096; os = record { state = 4; calls = [] } })).0
    ≡ panics
unfolding get_dns_suffix pthi_call check_status blit receive send make_header
suffix_panics = refl
