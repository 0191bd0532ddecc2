-- ===== src/Heci/Instance.antt =====
-- `HeciContext` as the transport of the LME session: src/lme/mod.rs over src/heci/mod.rs.
use amt_uefi_boot_app.Heci.Regs.{heci_polls, hdr_length, hdr_me_addr, hdr_host_addr, hdr_complete}
use amt_uefi_boot_app.Outcome.Rules.{OkIs, OkIs-and_then, OkIs-any}
use amt_uefi_boot_app.Lme.Session.{Session}
use amt_uefi_boot_app.Heci.Device.{reg_read, HeciContext, reg_write, next_input, later_inputs}
use amt_uefi_boot_app.Lme.Session.Recv.{IsBytes, ReadsBytes, IsBytes-take, ReceivesBytes}
use amt_uefi_boot_app.Lme.Transport.{Heci, Received}
use amt_uefi_boot_app.Prelude.{
  ℕ, List, blit, ◌++◌, drop, take, arith, Bool, true, ◌∷◌, suc, Bool-cases, zero, ltb, [], length,
  ◌+◌, inl, ◌/◌, inr, if◌then◌else◌, false,
}
use amt_uefi_boot_app.Heci.Read.{
  read_msg, words_bytes, read_payload, read_loop, acknowledge, wait_data_loop, read_words,
}
use amt_uefi_boot_app.Heci.Write.{write_msg}
use amt_uefi_boot_app.Heci.Startup.{init}
use amt_uefi_boot_app.Heci.Client.{connect_client, close}

-- `rounds` bounds the fragments of a message.
abbrev pub heci : ℕ → Heci
heci rounds = record {
  Ctx = HeciContext;
  me_addr = λ c. c.me_addr;
  host_addr = λ c. c.host_addr;
  write_msg = write_msg;
  read_msg = read_msg rounds;
  fresh = λ c. record c { mmio = 0; me_addr = 0; host_addr = 0; max_msg_len = 0; cb_depth = 0 };
  init = init;
  connect_client = connect_client rounds;
  close = close;
}

IsBytes-append : (p q : List ℕ) → IsBytes p → IsBytes q → IsBytes (p ++ q)
IsBytes-append [] q a b i = b i
IsBytes-append (x ∷ p) q a b zero = a 0
IsBytes-append (x ∷ p) q a b (suc i) = IsBytes-append p q (λ j. a (suc j)) b i

IsBytes-drop : (n : ℕ) (p : List ℕ) → IsBytes p → IsBytes (drop n p)
IsBytes-drop zero p a = a
IsBytes-drop (suc n) [] a = a
IsBytes-drop (suc n) (x ∷ p) a = IsBytes-drop n p (λ j. a (suc j))

IsBytes-blit :
    (buf : List ℕ) (pos : ℕ) (p : List ℕ) → IsBytes buf → IsBytes p → IsBytes (blit buf pos p)
unfolding blit
IsBytes-blit buf pos p a b =
    IsBytes-append (take pos buf) _ (IsBytes-take pos buf a)
      (IsBytes-append p _ b (IsBytes-drop _ buf a))

words_bytes-IsBytes : (words : List ℕ) → IsBytes (words_bytes words)
unfolding words_bytes
words_bytes-IsBytes [] i = omega arith
words_bytes-IsBytes (w ∷ words) zero = omega arith
words_bytes-IsBytes (w ∷ words) (suc zero) = omega arith
words_bytes-IsBytes (w ∷ words) (suc (suc zero)) = omega arith
words_bytes-IsBytes (w ∷ words) (suc (suc (suc zero))) = omega arith
words_bytes-IsBytes (w ∷ words) (suc (suc (suc (suc i)))) = words_bytes-IsBytes words i

read_payload-IsBytes :
    (total frag_len : ℕ) (buf : List ℕ) (s : HeciContext)
    → IsBytes buf
    → OkIs IsBytes (read_payload total frag_len buf s).0
unfolding read_payload acknowledge reg_read reg_write
read_payload-IsBytes total frag_len buf s h =
    elim (Bool-cases (ltb (length buf) (total + frag_len))) [
      | inl e ↦ rw e (
          OkIs-and_then (λ _. Unit {0}) IsBytes _ (read_words ((frag_len + 3) / 4) s) (OkIs-any _)
            (λ _ t _. tt))
      | inr e ↦ rw e (
          OkIs-and_then (λ _. Unit {0}) IsBytes _ (read_words ((frag_len + 3) / 4) s) (OkIs-any _)
            (λ words t _.
              IsBytes-blit buf total (take frag_len (words_bytes words)) h
                (IsBytes-take frag_len (words_bytes words) (words_bytes-IsBytes words))))
    ]

abbrev HasBytes : Received → Type 0
HasBytes m = IsBytes m.bytes

read_loop-IsBytes :
    (fuel total me host : ℕ) (first : Bool) (buf : List ℕ) (s : HeciContext)
    → IsBytes buf
    → ReceivesBytes (read_loop fuel total first me host buf s).0
unfolding read_loop reg_read
read_loop-IsBytes zero total me host first buf s h = tt
read_loop-IsBytes (suc fuel) total me host first buf s h =
    OkIs-and_then (λ _. Unit {0}) HasBytes _ (wait_data_loop heci_polls s) (OkIs-any _)
      λ has_data t _. elim (Bool-cases has_data) [
        | inl e ↦
            let hdr = next_input t.inputs in
            let left = record t { inputs = later_inputs t.inputs } in
            rw e (
              OkIs-and_then IsBytes HasBytes _ (read_payload total (hdr_length hdr) buf left)
                (read_payload-IsBytes total (hdr_length hdr) buf left h)
                λ filled u b. elim (Bool-cases (hdr_complete hdr)) [
                  | inl f ↦ rw f b
                  | inr f ↦ rw f (
                      read_loop-IsBytes fuel (total + hdr_length hdr)
                        (if first then hdr_me_addr hdr else me)
                        (if first then hdr_host_addr hdr else host) false filled u b)
                ])
        | inr e ↦ rw e (ground (arith, h))
      ]

-- `read_msg` leaves bytes in its buffer, whatever the registers yield.
pub read_msg-IsBytes : (rounds : ℕ) → ReadsBytes (heci rounds)
unfolding read_msg
read_msg-IsBytes rounds tmp c h = read_loop-IsBytes rounds 0 0 0 true tmp c h
