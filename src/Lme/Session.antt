-- ===== src/Lme/Session.antt =====
-- `LmeSession` of src/lme/mod.rs (UEFI target): its state, and sending and receiving one APF
-- message over HECI.
pub mod Recv
use amt_uefi_boot_app.Prelude.{
  ℕ, zero, suc, ◌+◌, ◌-◌, ◌%◌, ◌^◌, Bool, true, ◌&&◌, List, [], ◌∷◌, ◌==◌, ltb, leb, if◌then◌else◌,
  get_or, take, replicate,
}
use amt_uefi_boot_app.Outcome.{
  Outcome, err, waits, Action, aborted, buffer_too_small, pure, fail, ◌>>=◌, ◌>>◌, ignore, ok,
  and_then,
}
use amt_uefi_boot_app.Lme.Transport.{Heci, Received}

abbrev pub lme_rx_buf_size : ℕ
lme_rx_buf_size = 4096

pub record Session (H : Heci) : Type 0 where
  pub heci : H.Ctx
  pub our_channel : ℕ
  pub amt_channel : ℕ
  pub channel_active : Bool
  pub tx_window : ℕ
  pub rx_buf : List ℕ
  pub rx_len : ℕ
  pub port_forward_ok : Bool
  pub hbm_send_credits : ℕ

-- How a round of `raw_recv` ends, but for an error: by `continue`, with what the temporary buffer
-- now holds, or with `buf[..len]`.
pub data Round : Type 0 where
  again : List ℕ → Round
  message : List ℕ → Round

-- A HECI call made on the session's context.
abbrev pub put_heci :
    (H : Heci) {A : Type 0} → Session H → Outcome A × H.Ctx → Outcome A × Session H
put_heci H s (o, c) = (o, record s { heci = c })

module _ (H : Heci) where
  abbrev pub on_heci : {A : Type 0} → Action H.Ctx A → Action (Session H) A
  on_heci m s = put_heci H s (m s.heci)

  unfoldable pub send_flow_control : Action (Session H) (Unit {0})
  send_flow_control s =
      on_heci
        (H.write_msg 0 0 (0x08 ∷ H.me_addr s.heci ∷ H.host_addr s.heci ∷ 0 ∷ 0 ∷ 0 ∷ 0 ∷ 0 ∷ [])
          true)
        s

  -- `saturating_sub(1)` is the subtraction of ℕ.
  unfoldable pub raw_send : List ℕ → Action (Session H) (Unit {0})
  raw_send bytes s =
      on_heci (H.write_msg (H.me_addr s.heci) (H.host_addr s.heci) bytes true)
        (record s { hbm_send_credits = s.hbm_send_credits - 1 })

  unfoldable pub disconnect_reply : List ℕ → Action (Session H) (Unit {0})
  disconnect_reply tmp =
      ignore (on_heci (H.write_msg 0 0 (0x87 ∷ get_or tmp 1 0 ∷ get_or tmp 2 0 ∷ 0 ∷ []) true))

  -- One message in the loop of `raw_recv`, for a buffer of `size` bytes.
  unfoldable pub hear : ℕ → Received → Action (Session H) Round
  unfolding disconnect_reply send_flow_control
  hear size m t =
      if m.from_me == 0 && m.to_host == 0
      then if get_or m.bytes 0 0 == 0x08
        then (ok (again m.bytes), record t { hbm_send_credits = (t.hbm_send_credits + 1) % 2 ^ 32 })
        else if get_or m.bytes 0 0 == 0x07 && leb 4 m.count
        then (disconnect_reply m.bytes >> fail aborted) t
        else (ok (again m.bytes), t)
      else if m.from_me == H.me_addr t.heci && m.to_host == H.host_addr t.heci
      then if ltb size m.count
        then (err buffer_too_small, t)
        else (ignore send_flow_control >> pure (message (take m.count m.bytes))) t
      else (ok (again m.bytes), t)

  unfoldable pub raw_recv_round : ℕ → List ℕ → Action (Session H) Round
  unfolding hear
  raw_recv_round size tmp = on_heci (H.read_msg tmp) >>= hear size

  -- The loop has no bound of its own: `fuel` is the number of messages that it may look at.
  unfoldable pub raw_recv_loop : ℕ → ℕ → List ℕ → Action (Session H) (List ℕ)
  raw_recv_loop zero size tmp s = (waits, s)
  raw_recv_loop (suc fuel) size tmp s =
      and_then (raw_recv_round size tmp s)
        λ r. elim r [ again tmp' ↦ raw_recv_loop fuel size tmp' | message m ↦ pure m ]

  unfoldable pub raw_recv : ℕ → ℕ → Action (Session H) (List ℕ)
  unfolding raw_recv_loop
  raw_recv fuel size = raw_recv_loop fuel size (replicate 2048 0)
