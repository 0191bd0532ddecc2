-- ===== src/Heci/Tests.antt =====
-- Runs of the HECI layer over scripted registers, and its theorems at concrete inputs.

use amt_uefi_boot_app.Heci.Client.Asked.{Connects, connect_client_impl-Connects}
use amt_uefi_boot_app.Heci.Client.{
  exchange, amthi_uuid, connect_client_impl, hbm_version, find_client, hbm_connect, hbm_enumerate,
}
use amt_uefi_boot_app.Lme.Session.Recv.{bytes_test-IsBytes}
use amt_uefi_boot_app.Heci.Read.{
  read_msg, acknowledge, read_loop, read_payload, read_words, wait_data_loop, words_bytes,
}
use amt_uefi_boot_app.Heci.Write.{write_msg}
use amt_uefi_boot_app.Heci.Read.Reassembly.{Incoming, more, read_msg_lem, last}
use amt_uefi_boot_app.Outcome.{ok}
use amt_uefi_boot_app.Heci.Device.{HeciContext, reg_read, reg_write}
use amt_uefi_boot_app.Heci.Write.{
  dwords, write_loop, write_fragment, wait_slots, wait_slots_loop, write_ring, notify_me,
}
use amt_uefi_boot_app.Heci.Regs.{
  msg_hdr, filled_slots, hdr_me_addr, hdr_host_addr, hdr_length, hdr_complete, filled_slots_lem,
  csr_get_wp, msg_hdr_fields, csr_get_rp, csr_get_cbd,
}
use amt_uefi_boot_app.Prelude.{
  List, ℕ, true, ◌+◌, replicate, ◌∷◌, ◌++◌, ◌≡◌, ◌%◌, [], ◌^◌, false, ◌<◌, arith, blit, refl,
  length,
}

abbrev device : List ℕ → HeciContext
device inputs = record {
  mmio = 0xfe00_0000;
  me_addr = 7;
  host_addr = 1;
  max_msg_len = 0;
  cb_depth = 4;
  inputs = inputs;
  writes = [];
}

-- A ring of 4 slots, empty (wp = rp = 0): 3 words fit, two of them payload.
abbrev empty_ring : List ℕ
empty_ring = 0x0400_0000 ∷ 8 ∷ []

abbrev five_bytes : List ℕ
five_bytes = 1 ∷ 2 ∷ 3 ∷ 4 ∷ 5 ∷ []

abbrev nine_bytes : List ℕ
nine_bytes = five_bytes ++ (6 ∷ 7 ∷ 8 ∷ 9 ∷ [])

-- Nine bytes go out as eight and one, and the second header has the flag.
write_runs :
    (write_msg 7 1 nine_bytes true (device (empty_ring ++ (0 ∷ (empty_ring ++ (0 ∷ [])))))).0
    ≡ ok tt
unfolding write_msg write_loop write_fragment wait_slots wait_slots_loop reg_read reg_write
    write_ring notify_me dwords csr_get_cbd filled_slots csr_get_wp csr_get_rp
write_runs = refl

msg_hdr_fields_example :
    let raw = msg_hdr 7 2 300 true in
    (hdr_me_addr raw ≡ 7)
    × (hdr_host_addr raw ≡ 2)
    × (hdr_length raw ≡ 300 % 512)
    × (hdr_complete raw ≡ true)
    × (raw < 2 ^ 32)
msg_hdr_fields_example = msg_hdr_fields 7 2 300 true (omega arith) (omega arith)

filled_slots_lem_example : filled_slots ((250 + 10) % 256) 250 (2 ^ 5) ≡ 10
filled_slots_lem_example = filled_slots_lem 5 250 10 (omega arith) (omega arith) (omega arith)

-- Two fragments, the first after one poll of an empty ring.
abbrev two_fragments : List ℕ
two_fragments =
    0
    ∷ 0x0100
    ∷ msg_hdr 7 1 5 false
    ∷ 0x0403_0201
    ∷ 5
    ∷ 0
    ∷ 0x0100
    ∷ msg_hdr 7 1 1 true
    ∷ 6
    ∷ 0
    ∷ []

two_fragments-Incoming : Incoming 2 7 1 two_fragments (five_bytes ++ (6 ∷ [])) []
unfolding dwords msg_hdr hdr_me_addr hdr_host_addr hdr_length hdr_complete csr_get_wp csr_get_rp
two_fragments-Incoming =
    more 1 7 1 (0 ∷ []) five_bytes _ (6 ∷ []) [] 0x0100 (msg_hdr 7 1 5 false) 0
      ((omega arith, refl, tt), omega arith) (omega arith, λ e. omega (arith, e))
      (omega arith, refl, refl) (bytes_test-IsBytes five_bytes refl)
      (last [] (6 ∷ []) [] 0x0100 (msg_hdr 7 1 1 true) 0 (tt, omega arith)
        (omega arith, λ e. omega (arith, e)) (omega arith, refl, refl)
        (bytes_test-IsBytes (6 ∷ []) refl))

read_msg_lem_example :
    ((read_msg 2 (replicate 8 0) (device two_fragments)).0
      ≡ ok (record {
        count = 6;
        from_me = 7;
        to_host = 1;
        bytes = blit (replicate 8 0) 0 (five_bytes ++ (6 ∷ []));
      }))
    × ((read_msg 2 (replicate 8 0) (device two_fragments)).1.inputs ≡ [])
read_msg_lem_example =
    read_msg_lem 2 7 1 2 (replicate 8 0) (five_bytes ++ (6 ∷ [])) [] (device two_fragments)
      two_fragments-Incoming (omega arith) (omega arith)

-- What the registers yield in one exchange: the ring is empty, the request goes out, and the
-- answer comes as one fragment.
abbrev exchanged : List ℕ → List ℕ
exchanged answer =
    empty_ring ++ (0 ∷ 0x0100 ∷ msg_hdr 0 0 (length answer) true ∷ (dwords answer ++ (0 ∷ [])))

-- One client, with address 7 and a message length of 4096.
abbrev connection_answers : List ℕ
connection_answers =
    exchanged (0x81 ∷ 0 ∷ 2 ∷ 1 ∷ [])
    ++ (exchanged (0x84 ∷ 0 ∷ 0 ∷ 0 ∷ 128 ∷ replicate 31 0)
        ++ (exchanged ((0x85 ∷ 7 ∷ 0 ∷ 0 ∷ amthi_uuid) ++ (1 ∷ 1 ∷ 0 ∷ 0 ∷ 0 ∷ 16 ∷ 0 ∷ 0 ∷ []))
            ++ exchanged (0x86 ∷ 7 ∷ 1 ∷ 0 ∷ [])))

connect_runs : (connect_client_impl 2 amthi_uuid 1 (device connection_answers)).0 ≡ ok tt
unfolding connect_client_impl hbm_version exchange write_msg write_loop wait_slots wait_slots_loop
    reg_read csr_get_cbd filled_slots csr_get_wp csr_get_rp write_fragment reg_write write_ring
    dwords notify_me read_msg find_client hbm_connect hbm_enumerate acknowledge read_loop
    read_payload read_words wait_data_loop words_bytes hdr_complete hdr_host_addr hdr_length
    hdr_me_addr msg_hdr blit
connect_runs = refl

connect_client_impl-Connects_example :
    Connects 2 amthi_uuid 1
      (device connection_answers)
      (connect_client_impl 2 amthi_uuid 1 (device connection_answers))
connect_client_impl-Connects_example =
    connect_client_impl-Connects 2 amthi_uuid 1 (device connection_answers)
