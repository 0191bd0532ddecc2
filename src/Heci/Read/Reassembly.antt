-- ===== src/Heci/Read/Reassembly.antt =====
-- How `read_msg` of src/heci/mod.rs puts a message together.

use amt_uefi_boot_app.Outcome.{ok, pure}
use amt_uefi_boot_app.Heci.Regs.{
  heci_polls, csr_get_wp, csr_get_rp, hdr_length, hdr_complete, hdr_me_addr, hdr_host_addr, h_csr,
  csr_ig, csr_is,
}
use amt_uefi_boot_app.Lme.Session.Recv.{IsBytes}
use amt_uefi_boot_app.Heci.Device.{reg_read, HeciContext, reg_write}
use amt_uefi_boot_app.Heci.Write.{dwords}
use amt_uefi_boot_app.Heci.Read.{
  read_msg, words_bytes, read_words, wait_data_loop, read_payload, acknowledge, read_loop,
}
use amt_uefi_boot_app.Prelude.{
  ℕ, List, ◌∷◌, length, ◌<◌, take, ◌≡◌, ◌^◌, ◌+◌, [], refl, ◌/◌, ◌≢◌, arith, ◌++◌, true, suc, zero,
  false, ap, ◌%◌, ap₂, ◌≤◌, blit, ltb, sym, ◌==◌, bit_or, Bool, if◌then◌else◌, ◌∙◌, length-append,
  length-blit, blit-blit,
}

abbrev AreIdle : List ℕ → Type 0
AreIdle [] = Unit
AreIdle (csr ∷ rest) = (csr < 2 ^ 32) × (csr_get_wp csr ≡ csr_get_rp csr) × AreIdle rest

-- What the hardware yields for a message of `n` fragments, before `rest`: for each one some polls of
-- an empty ring, fewer than the timeout has, a poll of a ring that is not empty, the header, the
-- payload in words and the host's register. `me` and `host` are those of the first header.
pub data Incoming : ℕ → ℕ → ℕ → List ℕ → List ℕ → List ℕ → Type 0 where
  last :
      (idle bytes rest : List ℕ) (csr hdr ack : ℕ)
      → AreIdle idle × (length idle < heci_polls)
      → (csr < 2 ^ 32) × (csr_get_wp csr ≢ csr_get_rp csr)
      → (hdr < 2 ^ 32) × (hdr_length hdr ≡ length bytes) × (hdr_complete hdr ≡ true)
      → IsBytes bytes
      → Incoming 1
          (hdr_me_addr hdr)
          (hdr_host_addr hdr)
          (idle ++ (csr ∷ (hdr ∷ (dwords bytes ++ (ack ∷ rest)))))
          bytes
          rest
  more :
      (n me host : ℕ) (idle bytes inputs others rest : List ℕ) (csr hdr ack : ℕ)
      → AreIdle idle × (length idle < heci_polls)
      → (csr < 2 ^ 32) × (csr_get_wp csr ≢ csr_get_rp csr)
      → (hdr < 2 ^ 32) × (hdr_length hdr ≡ length bytes) × (hdr_complete hdr ≡ false)
      → IsBytes bytes
      → Incoming n me host inputs others rest
      → Incoming
          (suc n)
          (hdr_me_addr hdr)
          (hdr_host_addr hdr)
          (idle ++ (csr ∷ (hdr ∷ (dwords bytes ++ (ack ∷ inputs)))))
          (bytes ++ others)
          rest

dwords-word_bytes :
    (bytes : List ℕ) → IsBytes bytes → take (length bytes) (words_bytes (dwords bytes)) ≡ bytes
unfolding words_bytes dwords
dwords-word_bytes [] h = refl
dwords-word_bytes (a ∷ []) h = ap (λ x. x ∷ []) (omega (arith, h 0))
dwords-word_bytes (a ∷ (b ∷ [])) h =
    ap₂ (λ x y. x ∷ (y ∷ [])) (omega (arith, h 0, h 1)) (omega (arith, h 0, h 1))
dwords-word_bytes (a ∷ (b ∷ (c ∷ []))) h =
    ap₂ (λ x ys. x ∷ ys) (omega (arith, h 0, h 1, h 2))
      (ap₂ (λ x y. x ∷ (y ∷ [])) (omega (arith, h 0, h 1, h 2)) (omega (arith, h 0, h 1, h 2)))
dwords-word_bytes (a ∷ (b ∷ (c ∷ (d ∷ rest)))) h =
    let tail = dwords-word_bytes rest (λ i. h (suc (suc (suc (suc i))))) in
    ap₂ (λ x ys. x ∷ ys) (omega (arith, h 0, h 1, h 2, h 3))
      (ap₂ (λ x ys. x ∷ ys) (omega (arith, h 0, h 1, h 2, h 3))
        (ap₂ (λ x ys. x ∷ ys) (omega (arith, h 0, h 1, h 2, h 3))
          (ap₂ (λ x ys. x ∷ ys) (omega (arith, h 0, h 1, h 2, h 3)) tail)))

length-dwords : (bytes : List ℕ) → length (dwords bytes) ≡ (length bytes + 3) / 4
unfolding dwords
length-dwords [] = omega arith
length-dwords (a ∷ []) = omega arith
length-dwords (a ∷ (b ∷ [])) = omega arith
length-dwords (a ∷ (b ∷ (c ∷ []))) = omega arith
length-dwords (a ∷ (b ∷ (c ∷ (d ∷ rest)))) = omega (arith, length-dwords rest)

abbrev AreWords : List ℕ → Type 0
AreWords [] = Unit
AreWords (word ∷ rest) = (word < 2 ^ 32) × AreWords rest

dwords-AreWords : (bytes : List ℕ) → IsBytes bytes → AreWords (dwords bytes)
unfolding dwords
dwords-AreWords [] h = tt
dwords-AreWords (a ∷ []) h = (omega (arith, h 0), tt)
dwords-AreWords (a ∷ (b ∷ [])) h = (omega (arith, h 0, h 1), tt)
dwords-AreWords (a ∷ (b ∷ (c ∷ []))) h = (omega (arith, h 0, h 1, h 2), tt)
dwords-AreWords (a ∷ (b ∷ (c ∷ (d ∷ rest)))) h =
    (omega (arith, h 0, h 1, h 2, h 3), dwords-AreWords rest (λ i. h (suc (suc (suc (suc i))))))

-- The hardware is about to yield these values.
abbrev pub yielding : HeciContext → List ℕ → HeciContext
yielding s values = record s { inputs = values }

read_words_lem :
    (words rest : List ℕ) (s : HeciContext)
    → AreWords words
    → read_words (length words) (yielding s (words ++ rest)) ≡ (ok words, yielding s rest)
unfolding read_words reg_read
read_words_lem [] rest s h = refl
read_words_lem (word ∷ words) rest s (h, hs) =
    let tail = read_words_lem words rest s hs in
    let same : word % 2 ^ 32 ≡ word = omega arith in rw (tail, same) refl

wait_data_lem :
    (polls csr : ℕ) (idle rest : List ℕ) (s : HeciContext)
    → AreIdle idle
    → length idle < polls
    → (csr < 2 ^ 32) × (csr_get_wp csr ≢ csr_get_rp csr)
    → wait_data_loop polls (yielding s (idle ++ (csr ∷ rest))) ≡ (ok true, yielding s rest)
unfolding wait_data_loop reg_read
wait_data_lem zero csr idle rest s i l c = absurd (omega arith)
wait_data_lem (suc polls) csr [] rest s i l (b, c) =
    let same : csr % 2 ^ 32 ≡ csr = omega arith in rw same (ground (arith, c))
wait_data_lem (suc polls) csr (x ∷ idle) rest s (b, e, i) l c =
    let same : x % 2 ^ 32 ≡ x = omega arith in
    let tail = wait_data_lem polls csr idle rest s i (omega arith) c in
    let idles : (csr_get_wp x == csr_get_rp x) ≡ true = ground (arith, e) in rw (same, idles) tail

read_payload_lem :
    (total : ℕ) (bytes rest buf : List ℕ) (ack : ℕ) (s : HeciContext)
    → IsBytes bytes
    → total + length bytes ≤ length buf
    → (t : HeciContext) × (read_payload total
          (length bytes)
          buf
          (yielding s (dwords bytes ++ (ack ∷ rest)))
        ≡ (ok (blit buf total bytes), yielding t rest))
unfolding read_payload acknowledge reg_read reg_write
read_payload_lem total bytes rest buf ack s h b =
    let fits : ltb (length buf) (total + length bytes) ≡ false = ground arith in
    let words = read_words_lem (dwords bytes) (ack ∷ rest) s (dwords-AreWords bytes h) in
    (
      record s {
        writes = s.writes ++ ((h_csr, bit_or (bit_or (ack % 2 ^ 32) csr_ig) csr_is) ∷ []);
      },
      rw (fits, sym (length-dwords bytes), words, dwords-word_bytes bytes h) refl,
    )

-- One fragment.
read_round_lem :
    (fuel total me host : ℕ) (first : Bool) (buf idle bytes rest : List ℕ) (csr hdr ack : ℕ)
    (s : HeciContext)
    → AreIdle idle × (length idle < heci_polls)
    → (csr < 2 ^ 32) × (csr_get_wp csr ≢ csr_get_rp csr)
    → (hdr < 2 ^ 32) × (hdr_length hdr ≡ length bytes)
    → IsBytes bytes
    → total + length bytes ≤ length buf
    → let out_me = if first then hdr_me_addr hdr else me in
      let out_host = if first then hdr_host_addr hdr else host in
      let filled = blit buf total bytes in
      (t : HeciContext) × (read_loop
          (suc fuel)
          total
          first
          me
          host
          buf
          (yielding s (idle ++ (csr ∷ (hdr ∷ (dwords bytes ++ (ack ∷ rest))))))
        ≡ (if hdr_complete hdr
              then pure (record {
                count = total + length bytes;
                from_me = out_me;
                to_host = out_host;
                bytes = filled;
              })
              else read_loop fuel (total + length bytes) false out_me out_host filled)
            (yielding t rest))
unfolding read_loop reg_read
read_round_lem fuel total me host first buf idle bytes rest csr hdr ack s (i, l) c (b, e) h fits =
    let same : hdr % 2 ^ 32 ≡ hdr = omega arith in
    let (t, payload) = read_payload_lem total bytes rest buf ack s h fits in
    let wait = wait_data_lem heci_polls csr idle (hdr ∷ (dwords bytes ++ (ack ∷ rest))) s i l c in
    (t, rw (wait, same, e, payload) refl)

read_loop_lem :
    (n m h total me host fuel : ℕ) (first : Bool) (buf inputs bytes rest : List ℕ) (s : HeciContext)
    → Incoming n m h inputs bytes rest
    → n ≤ fuel
    → total + length bytes ≤ length buf
    → (t : HeciContext) × (read_loop fuel total first me host buf (yielding s inputs) ≡ (
      ok (record {
        count = total + length bytes;
        from_me = (if first then m else me);
        to_host = (if first then h else host);
        bytes = blit buf total bytes;
      }),
      yielding t rest,
    ))
read_loop_lem n m h total me host zero first buf inputs bytes rest s
      (last idle b r csr hdr ack i c d k) l fits =
    absurd (omega arith)
read_loop_lem n m h total me host zero first buf inputs bytes rest s
      (more n' m' h' idle b ins o r csr hdr ack i c d k inc) l fits =
    absurd (omega arith)
read_loop_lem n m h total me host (suc fuel) first buf inputs bytes rest s
      (last idle b r csr hdr ack i c (d, e, f) k) l fits =
    let (t, run) =
      read_round_lem fuel total me host first buf idle b r csr hdr ack s i c (d, e) k fits in
    (t, run ∙ rw f refl)
read_loop_lem n m h total me host (suc fuel) first buf inputs bytes rest s
      (more n' m' h' idle b ins o r csr hdr ack i c (d, e, f) k inc) l fits =
    let size = length-append b o in
    let out_me = if first then hdr_me_addr hdr else me in
    let out_host = if first then hdr_host_addr hdr else host in
    let (t, run) =
      read_round_lem fuel total me host first buf idle b ins csr hdr ack s i c (d, e) k
        (omega (arith, size)) in
    let room = length-blit buf total b (omega (arith, size)) in
    let (u, tail) =
      read_loop_lem n' m' h' (total + length b) out_me out_host fuel false (blit buf total b) ins o
        r t inc (omega arith) (omega (arith, size, room)) in
    let joined = blit-blit buf total b o (omega (arith, size)) in
    let sum : total + length b + length o ≡ total + length (b ++ o) = omega (arith, size) in
    (u, run ∙ rw f (tail ∙ rw (joined, sum) refl))

-- If the hardware delivers a message in fragments, each after fewer than 5000 polls of an empty ring,
-- and the message fits into the buffer, then `read_msg` returns its length and the addresses of its
-- first header, with the payloads one after the other at the start of the buffer and the rest of the
-- buffer as it was, and leaves the values behind the message unread. As many rounds as there are
-- fragments are enough.
pub read_msg_lem :
    (n me host fuel : ℕ) (buf bytes rest : List ℕ) (s : HeciContext)
    → Incoming n me host s.inputs bytes rest
    → n ≤ fuel
    → length bytes ≤ length buf
    → ((read_msg fuel buf s).0
        ≡ ok (record {
          count = length bytes;
          from_me = me;
          to_host = host;
          bytes = blit buf 0 bytes;
        }))
      × ((read_msg fuel buf s).1.inputs ≡ rest)
unfolding read_msg
read_msg_lem n me host fuel buf bytes rest s inc l fits =
    let sum : 0 + length bytes ≡ length bytes = omega arith in
    let (t, run) =
      read_loop_lem n me host 0 0 0 fuel true buf s.inputs bytes rest s inc l (omega arith) in
    (ap (λ r. r.0) run ∙ rw sum refl, ap (λ r. r.1.inputs) run)
