-- ===== src/Lme/Channel/Receive.antt =====
-- `receive` against the messages that arrive.
use amt_uefi_boot_app.Lme.Frames.{channel_data_bytes}
use amt_uefi_boot_app.Lme.Apf.{apf_channel_close, apf_channel_data, apf_channel_window_adjust}
use amt_uefi_boot_app.Outcome.{ok, Error, err, timeout, aborted}
use amt_uefi_boot_app.Lme.Session.{Session, raw_recv}
use amt_uefi_boot_app.Lme.Transport.{Heci}
use amt_uefi_boot_app.Prelude.{
  get_or, ℕ, List, ◌≡◌, ◌<◌, ◌≢◌, length, suc, arith, ◌^◌, [], ◌+◌, ◌≤◌, ◌++◌, ap, ◌∙◌, subst, ap₂,
  take, sym, if◌then◌else◌, append-nil, ◌==◌, zero, ◌||◌, length-append, append_assoc,
}
use amt_uefi_boot_app.Lme.Channel.{
  receive_loop, receive, received, Heci, ℕ, Session, List, raw_recv, ok, apf_channel_close, length,
  apf_channel_data,
}
use amt_uefi_boot_app.Lme.Process.{process_apf}
use amt_uefi_boot_app.Lme.Process.Data.{content, process_data_lem, process_other_lem}
use amt_uefi_boot_app.Lme.Session.Recv.{ReadsBytes, raw_recv_lem, IsSame}

-- One round of `receive`: a message is received and processed.
pub record Hears (H : Heci) (fuel : ℕ) (s : Session H) (m : List ℕ) (u : Session H) : Type 0 where
  pub between : Session H
  pub arrives : raw_recv H fuel 2048 s ≡ (ok m, between)
  pub processed : process_apf H m between ≡ (ok (get_or m 0 0), u)

-- In at most `n` rounds `bytes` arrive, in data messages that the buffer has room for and with
-- other messages between them, until the channel is closed or nothing more comes.
pub data Stream (H : Heci) (fuel : ℕ) : ℕ → Session H → List ℕ → Session H → Type 0 where
  closes :
      {n : ℕ} {s u : Session H} (m : List ℕ)
      → get_or m 0 0 ≡ apf_channel_close
      → Hears H fuel s m u
      → Stream H fuel (suc n) s [] u
  silence :
      {n : ℕ} {s u : Session H} (e : Error)
      → raw_recv H fuel 2048 s ≡ (err e, u)
      → Stream H fuel (suc n) s [] u
  brings :
      {n : ℕ} {s t u : Session H} (channel : ℕ) (payload rest bytes : List ℕ)
      → bytes ≡ payload ++ rest
      → 0 < length payload
      → length payload < 2 ^ 32
      → s.rx_len + length payload ≤ length s.rx_buf
      → Hears H fuel s (channel_data_bytes channel payload) t
      → Stream H fuel n t rest u
      → Stream H fuel (suc n) s bytes u
  passes :
      {n : ℕ} {s t u : Session H} {bytes : List ℕ} (m : List ℕ)
      → get_or m 0 0 ≢ apf_channel_data
      → get_or m 0 0 ≢ apf_channel_close
      → Hears H fuel s m t
      → Stream H fuel n t bytes u
      → Stream H fuel (suc n) s bytes u

module _ {H : Heci} (reads : ReadsBytes H) (fuel : ℕ) where
  -- The state that the message finds is that before the round, as far as it is looked at.
  between_lem :
      {s t : Session H} {m : List ℕ} (h : Hears H fuel s m t)
      → (h.between.rx_buf ≡ s.rx_buf) × (h.between.rx_len ≡ s.rx_len)
  between_lem {s} h =
      let same : IsSame s h.between =
        subst (λ q. IsSame s q.1) h.arrives (raw_recv_lem reads fuel 2048 s).0 in
      (same.same_buf, same.same_len)

  Hears-data :
      {s t : Session H} (channel : ℕ) (payload : List ℕ)
      → 0 < length payload
      → length payload < 2 ^ 32
      → s.rx_len + length payload ≤ length s.rx_buf
      → Hears H fuel s (channel_data_bytes channel payload) t
      → (content t ≡ content s ++ payload) × (t.rx_len ≡ s.rx_len + length payload)
  Hears-data {s} {t} channel payload pos small fits h =
      let b = between_lem h in
      let fits' : h.between.rx_len + length payload ≤ length h.between.rx_buf =
        omega (arith, b.1, ap length b.0) in
      let d = rw h.processed at (process_data_lem h.between channel payload pos small fits') in
      (
        d.0 ∙ ap (λ xs. xs ++ payload) (ap₂ take b.1 b.0),
        d.1 ∙ ap (λ (n : ℕ). n + length payload) b.1,
      )

  Hears-other :
      {s t : Session H} (m : List ℕ)
      → get_or m 0 0 ≢ apf_channel_data
      → Hears H fuel s m t
      → (t.rx_buf ≡ s.rx_buf) × (t.rx_len ≡ s.rx_len)
  Hears-other {s} {t} m ne h =
      let b = between_lem h in
      let d = rw h.processed at (process_other_lem h.between m ne) in (d.0 ∙ b.0, d.1 ∙ b.1)

  -- One round of the loop, by what it hears.
  round_lem :
      (s : Session H) {t : Session H} (k : ℕ) (m : List ℕ)
      → Hears H fuel s m t
      → receive_loop H fuel (suc k) s ≡ (
          if get_or m 0 0 == apf_channel_data || get_or m 0 0 == apf_channel_window_adjust
          then receive_loop H fuel k t
          else if get_or m 0 0 == apf_channel_close
          then received H fuel aborted t
          else receive_loop H fuel k t)
  unfolding receive_loop
  round_lem s k m h = rw (h.arrives, h.processed)

  round_silence :
      (s : Session H) {u : Session H} (k : ℕ) (e : Error)
      → raw_recv H fuel 2048 s ≡ (err e, u)
      → receive_loop H fuel (suc k) s ≡ received H fuel timeout u
  unfolding receive_loop
  round_silence s k e a = rw a

  -- The bytes that arrive are what is in the buffer when the loop stops.
  received_lem :
      (e : Error) (s u : Session H)
      → u.rx_buf ≡ s.rx_buf
      → u.rx_len ≡ s.rx_len
      → 0 < s.rx_len
      → (received H fuel e u ≡ (ok tt, u)) × (content u ≡ content s ++ [])
  unfolding received
  received_lem e s u b n pos = (ground arith, ap₂ take n b ∙ sym (append-nil _))

  round_data :
      (s : Session H) {t : Session H} (k channel : ℕ) (payload : List ℕ)
      → Hears H fuel s (channel_data_bytes channel payload) t
      → receive_loop H fuel (suc k) s ≡ receive_loop H fuel k t
  unfolding channel_data_bytes
  round_data s k channel payload h = round_lem s k (channel_data_bytes channel payload) h

  receive_loop_lem :
      (k : ℕ) {n : ℕ} {s u : Session H} {bytes : List ℕ}
      → n ≤ k
      → 0 < s.rx_len + length bytes
      → Stream H fuel n s bytes u
      → (receive_loop H fuel k s ≡ (ok tt, u)) × (content u ≡ content s ++ bytes)
  receive_loop_lem zero le pos (closes m c h) = absurd (omega arith)
  receive_loop_lem zero le pos (silence e a) = absurd (omega arith)
  receive_loop_lem zero le pos (brings _ _ _ _ _ _ _ _ _ _) = absurd (omega arith)
  receive_loop_lem zero le pos (passes _ _ _ _ _) = absurd (omega arith)
  receive_loop_lem (suc k) le pos (closes {s = s} {u = u} m c h) =
      let o = Hears-other m (rw c (λ e. absurd (omega arith))) h in
      let r = received_lem aborted s u o.0 o.1 (omega arith) in
      (ground (arith, round_lem s k m h, r.0, c), r.1)
  receive_loop_lem (suc k) le pos (silence {s = s} {u = u} e a) =
      let same : IsSame s u = subst (λ q. IsSame s q.1) a (raw_recv_lem reads fuel 2048 s).0 in
      let r = received_lem timeout s u same.same_buf same.same_len (omega arith) in
      (round_silence s k e a ∙ r.0, r.1)
  receive_loop_lem (suc k) le pos
        (brings {s = s} {t = t} channel payload rest bytes e p small fits h next) =
      let d = Hears-data channel payload p small fits h in
      let r =
        receive_loop_lem k (omega arith)
          (omega (arith, d.1, ap length e, length-append payload rest)) next in
      (
        round_data s k channel payload h ∙ r.0,
        rw e (r.1 ∙ ap (λ xs. xs ++ rest) d.0 ∙ append_assoc (content s) payload rest),
      )
  receive_loop_lem (suc k) le pos (passes {s = s} {t = t} {bytes = bytes} m nd nc h next) =
      let o = Hears-other m nd h in
      let r = receive_loop_lem k (omega arith) (omega (arith, o.1)) next in
      (ground (arith, round_lem s k m h, r.0), r.1 ∙ ap (λ xs. xs ++ bytes) (ap₂ take o.1 o.0))

  -- When at least one byte arrives within 100 rounds, in data messages that the buffer has room
  -- for, until the channel is closed or nothing more comes, `receive` succeeds, and the buffer
  -- holds exactly the payloads in their order, whatever other messages stood between them and
  -- whatever it held before. The hypothesis on `H` is that `read_msg` leaves bytes in its buffer.
  pub receive_lem :
      {n : ℕ} (s : Session H) {u : Session H} {bytes : List ℕ}
      → n ≤ 100
      → 0 < length bytes
      → Stream H fuel n (record s { rx_len = 0 }) bytes u
      → (receive H fuel s ≡ (ok tt, u)) × (content u ≡ bytes)
  unfolding receive
  receive_lem s le pos str = receive_loop_lem 100 le (omega arith) str
