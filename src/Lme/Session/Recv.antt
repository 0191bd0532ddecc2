-- ===== src/Lme/Session/Recv.antt =====
-- What sending and receiving one message leave alone.
use amt_uefi_boot_app.Prelude.{
  List, ◌≡◌, ℕ, arith, get_or, take, replicate, ◌<◌, zero, [], Bool, true, ltb, ◌&&◌,
}
use amt_uefi_boot_app.Outcome.{Outcome, ok, err, panics, waits, and_then, pure}
use amt_uefi_boot_app.Outcome.Rules.{OkIs}
use amt_uefi_boot_app.Lme.Transport.{Heci, Received}
use amt_uefi_boot_app.Lme.Session.{
  Session, raw_send, raw_recv, raw_recv_loop, send_flow_control, List, ℕ, get_or, take, replicate,
  suc, ◌∷◌, Round, raw_recv_round, again, and_then, message, pure, hear, put_heci,
}

-- A message made of bytes.
abbrev pub IsBytes : List ℕ → Type 0
IsBytes p = (i : ℕ) → get_or p i 0 < 256

abbrev pub GivesBytes : Outcome (List ℕ) → Type 0
GivesBytes = OkIs IsBytes

abbrev pub RoundBytes : Round → Type 0
RoundBytes (again m) = IsBytes m
RoundBytes (message m) = IsBytes m

abbrev pub HearsBytes : Outcome Round → Type 0
HearsBytes = OkIs RoundBytes

abbrev pub ReceivesBytes : Outcome Received → Type 0
ReceivesBytes = OkIs (λ (m : Received). IsBytes m.bytes)

-- `read_msg` fills the buffer with bytes.
abbrev pub ReadsBytes : Heci → Type 0
ReadsBytes H = (tmp : List ℕ) (c : H.Ctx) → IsBytes tmp → ReceivesBytes (H.read_msg tmp c).0

-- Only the HECI context and the credits may differ.
pub record IsSame {H : Heci} (s t : Session H) : Type 0 where
  pub same_our : t.our_channel ≡ s.our_channel
  pub same_amt : t.amt_channel ≡ s.amt_channel
  pub same_active : t.channel_active ≡ s.channel_active
  pub same_window : t.tx_window ≡ s.tx_window
  pub same_buf : t.rx_buf ≡ s.rx_buf
  pub same_len : t.rx_len ≡ s.rx_len
  pub same_forward : t.port_forward_ok ≡ s.port_forward_ok

pub IsBytes-take : (n : ℕ) (p : List ℕ) → IsBytes p → IsBytes (take n p)
IsBytes-take zero p b i = omega arith
IsBytes-take (suc n) [] b i = omega arith
IsBytes-take (suc n) (x ∷ p) b zero = b 0
IsBytes-take (suc n) (x ∷ p) b (suc i) = IsBytes-take n p (λ j. b (suc j)) i

IsBytes-zeros : (n : ℕ) → IsBytes (replicate n 0)
IsBytes-zeros zero i = omega arith
IsBytes-zeros (suc n) zero = omega arith
IsBytes-zeros (suc n) (suc i) = IsBytes-zeros n i

-- Bytes by a test, for concrete messages.
abbrev pub bytes_test : List ℕ → Bool
bytes_test [] = true
bytes_test (x ∷ p) = ltb x 256 && bytes_test p

pub bytes_test-IsBytes : (p : List ℕ) → bytes_test p ≡ true → IsBytes p
bytes_test-IsBytes [] h i = omega arith
bytes_test-IsBytes (x ∷ p) h zero = ground arith
bytes_test-IsBytes (x ∷ p) h (suc i) = bytes_test-IsBytes p (ground arith) i

module _ {H : Heci} where
  pub raw_send-IsSame : (m : List ℕ) (s : Session H) → IsSame s (raw_send H m s).1
  unfolding raw_send
  raw_send-IsSame m s = ground arith

  pub send_flow_control-IsSame : (s : Session H) → IsSame s (send_flow_control H s).1
  unfolding send_flow_control
  send_flow_control-IsSame s = ground arith

  hear-IsSame : (size : ℕ) (m : Received) (t : Session H) → IsSame t (hear H size m t).1
  unfolding hear
  hear-IsSame size m t = ground arith

  hear-HearsBytes :
      (size : ℕ) (m : Received) (t : Session H) → IsBytes m.bytes → HearsBytes (hear H size m t).0
  unfolding hear
  hear-HearsBytes size m t b = ground (arith, b, IsBytes-take m.count m.bytes b)

  after_read :
      (size : ℕ) (s : Session H) (r : Outcome Received × H.Ctx)
      → ReceivesBytes r.0
      → let q = and_then (put_heci H s r) (hear H size) in IsSame s q.1 × HearsBytes q.0
  after_read size s (ok m, c) b =
      let t = record s { heci = c } in
      (ground (arith, hear-IsSame size m t), hear-HearsBytes size m t b)
  after_read size s (err e, c) b = (ground arith, tt)
  after_read size s (panics, c) b = (ground arith, tt)
  after_read size s (waits, c) b = (ground arith, tt)

  raw_recv_round_lem :
      ReadsBytes H
      → (size : ℕ) (tmp : List ℕ) (s : Session H) → IsBytes tmp
      → IsSame s (raw_recv_round H size tmp s).1 × HearsBytes (raw_recv_round H size tmp s).0
  unfolding raw_recv_round
  raw_recv_round_lem reads size tmp s b =
      after_read size s (H.read_msg tmp s.heci) (reads tmp s.heci b)

  -- The rest of the loop, after a round.
  after_round :
      (fuel size : ℕ) (s : Session H) (r : Outcome Round × Session H)
      → ((tmp : List ℕ) (t : Session H)
          → IsBytes tmp
          → IsSame t (raw_recv_loop H fuel size tmp t).1
            × GivesBytes (raw_recv_loop H fuel size tmp t).0)
      → IsSame s r.1
      → HearsBytes r.0
      → let q =
          and_then r
            (λ x. elim x [ again tmp ↦ raw_recv_loop H fuel size tmp | message m ↦ pure m ]) in
        IsSame s q.1 × GivesBytes q.0
  after_round fuel size s (ok (again tmp), t) ih k b =
      let h = ih tmp t b in (ground (arith, h.0), h.1)
  after_round fuel size s (ok (message m), t) ih k b = (k, b)
  after_round fuel size s (err e, t) ih k b = (k, tt)
  after_round fuel size s (panics, t) ih k b = (k, tt)
  after_round fuel size s (waits, t) ih k b = (k, tt)

  raw_recv_loop_lem :
      ReadsBytes H
      → (fuel size : ℕ) (tmp : List ℕ) (s : Session H) → IsBytes tmp
      → IsSame s (raw_recv_loop H fuel size tmp s).1
        × GivesBytes (raw_recv_loop H fuel size tmp s).0
  unfolding raw_recv_loop
  raw_recv_loop_lem reads zero size tmp s b = ground arith
  raw_recv_loop_lem reads (suc fuel) size tmp s b =
      let h = raw_recv_round_lem reads size tmp s b in
      after_round fuel size s (raw_recv_round H size tmp s) (raw_recv_loop_lem reads fuel size) h.0
        h.1

  pub raw_recv_lem :
      ReadsBytes H
      → (fuel size : ℕ) (s : Session H)
      → IsSame s (raw_recv H fuel size s).1 × GivesBytes (raw_recv H fuel size s).0
  unfolding raw_recv
  raw_recv_lem reads fuel size s =
      raw_recv_loop_lem reads fuel size (replicate 2048 0) s (IsBytes-zeros 2048)
