-- ===== src/Amt/Instance.antt =====
-- `HeciContext` as the transport of the commands: src/amt.rs over src/heci/mod.rs, the UEFI target.
use amt_uefi_boot_app.Outcome.Rules.{OkIs, OkIs-and_then, OkIs-any}
use amt_uefi_boot_app.Heci.Device.{HeciContext}
use amt_uefi_boot_app.Amt.Mei.{Mei}
use amt_uefi_boot_app.Prelude.{
  ℕ, List, ◌≤◌, length, ◌≡◌, suc, zero, length-take, replicate, Bool-cases, ◌==◌, ◌&&◌, inl, inr,
  ltb, ltb_false→le, length-blit, take, arith,
}
use amt_uefi_boot_app.Heci.Client.{send, receive, receive_loop}
use amt_uefi_boot_app.Heci.Read.{read_msg}

-- `rounds` bounds the fragments of a message, and `fuel` the messages that `receive` looks at.
abbrev pub mei : ℕ → ℕ → Mei
mei rounds fuel = record { Ctx = HeciContext; send = send; receive = receive rounds fuel }

abbrev pub Counts : List ℕ → ℕ × List ℕ → Type 0
Counts buf (n, filled) = (n ≤ length buf) × (length filled ≡ length buf)

receive_loop-Counts :
    (rounds fuel : ℕ) (buf tmp : List ℕ) (c : HeciContext)
    → OkIs (Counts buf) (receive_loop rounds fuel buf tmp c).0
unfolding receive_loop
receive_loop-Counts rounds zero buf tmp c = tt
receive_loop-Counts rounds (suc fuel) buf tmp c =
    OkIs-and_then (λ _. Unit {0}) (Counts buf) _ (read_msg rounds tmp c) (OkIs-any _)
      λ m s _.
        let again = receive_loop-Counts rounds fuel buf m.bytes in
        let size = length-take m.count m.bytes in
        elim (Bool-cases (m.from_me == 0 && m.to_host == 0)) [
          | inl e ↦
              rw e (OkIs-and_then (λ _. Unit {0}) (Counts buf) _ _ (OkIs-any _) (λ _ t _. again t))
          | inr e ↦ elim (Bool-cases (m.from_me == s.me_addr && m.to_host == s.host_addr)) [
            | inr f ↦ rw (e, f) (again s)
            | inl f ↦ elim (Bool-cases (ltb (length buf) m.count)) [
              | inl g ↦ rw (e, f, g) tt
              | inr g ↦
                  let fits = ltb_false→le _ _ g in
                  rw (e, f, g)
                    (fits, length-blit buf 0 (take m.count m.bytes) (omega (arith, size, fits)))
            ]
          ]
        ]

-- Whatever the registers yield, `receive` gives a count within the caller's buffer, which keeps its
-- length: the commands' slices `resp[16..resp_len]` stay inside.
pub receive-Counts :
    (rounds fuel : ℕ) (buf : List ℕ) (c : HeciContext)
    → OkIs (Counts buf) ((mei rounds fuel).receive buf c).0
unfolding receive
receive-Counts rounds fuel buf c = receive_loop-Counts rounds fuel buf (replicate 2048 0) c
