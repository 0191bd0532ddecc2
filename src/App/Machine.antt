-- ===== src/App/Machine.antt =====
-- What src/main.rs runs on: the HECI context as its commands and its LME session use it, the keys
-- that are pressed, and the screen. The stalls and what is logged have no counterpart.
use amt_uefi_boot_app.Outcome.{
  Outcome, Action, modify, ignore, waits, ◌>>◌, ok, Error, ◌>>=◌, pure, err, panics,
}
use amt_uefi_boot_app.Prelude.{ℕ, List, ◌∷◌, Option, [], codes, some, none}
use amt_uefi_boot_app.Amt.Mei.{Mei}
use amt_uefi_boot_app.Lme.Transport.{Heci}
use amt_uefi_boot_app.Ui.Box.{
  rows, top_prints, sep_prints, blank_prints, bottom_prints, center_prints, line_prints,
}
use amt_uefi_boot_app.Ui.Screen.{Console, clear, v_center}
use amt_uefi_boot_app.Http.Message.{HttpResponse, DigestAuth}

-- `resume c t` is the context `c` of the program over the hardware that a session has left in `t`.
pub record Machine : Type 1 where
  pub heci : Heci
  pub send : List ℕ → Action heci.Ctx (Unit {0})
  pub receive : List ℕ → Action heci.Ctx (ℕ × List ℕ)
  pub connect_amthi : Action heci.Ctx (Unit {0})
  pub resume : heci.Ctx → heci.Ctx → heci.Ctx

abbrev pub mei_of : Machine → Mei
mei_of M = record { Ctx = M.heci.Ctx; send = M.send; receive = M.receive }

-- `keys` are the keys that `wait_key` gives. The last three are the static buffers of src/http.rs
-- and src/wsman.rs.
pub record World (M : Machine) : Type 0 where
  pub ctx : M.heci.Ctx
  pub keys : List ℕ
  pub console : Console
  pub request : List ℕ
  pub auth : DigestAuth
  pub response : HttpResponse

abbrev pub put_ctx :
    (M : Machine) {A : Type 0} → World M → Outcome A × M.heci.Ctx → Outcome A × World M
put_ctx M w (o, c) = (o, record w { ctx = c })

abbrev pub ok_of : {A S : Type 0} → Outcome A × S → Outcome (Option A) × S
ok_of (ok a, s) = (ok (some a), s)
ok_of (err e, s) = (ok none, s)
ok_of (panics, s) = (panics, s)
ok_of (waits, s) = (waits, s)

abbrev pub result_of : {A S : Type 0} → Outcome A × S → Outcome (Option Error) × S
result_of (ok a, s) = (ok none, s)
result_of (err e, s) = (ok (some e), s)
result_of (panics, s) = (panics, s)
result_of (waits, s) = (waits, s)

module _ (M : Machine) where
  abbrev pub App : Type 0 → Type 0
  App = Action (World M)

  -- A call on the context; `.ok()` of its result; its error, if it has one.
  abbrev pub on_ctx : {A : Type 0} → Action M.heci.Ctx A → App A
  on_ctx m w = put_ctx M w (m w.ctx)

  abbrev pub try_ctx : {A : Type 0} → Action M.heci.Ctx A → App (Option A)
  try_ctx m w = put_ctx M w (ok_of (m w.ctx))

  abbrev pub error_of : {A : Type 0} → Action M.heci.Ctx A → App (Option Error)
  error_of m w = put_ctx M w (result_of (m w.ctx))

  abbrev pub paint : (Console → Console) → App (Unit {0})
  paint f = modify (λ w. record w { console = f w.console })

  abbrev pub show : List (ℕ → List (List ℕ)) → App (Unit {0})
  show texts = paint (rows texts)

  -- The start of a screen of `lines` lines with a title.
  unfoldable pub heading : ℕ → List ℕ → App (Unit {0})
  heading lines title = paint (λ c.
      rows (top_prints ∷ center_prints title ∷ sep_prints ∷ blank_prints ∷ [])
        (v_center lines (clear c)))

  abbrev pub next_key : List ℕ → World M → Outcome ℕ × World M
  next_key [] w = (waits, w)
  next_key (key ∷ keys) w = (ok key, record w { keys = keys })

  unfoldable pub wait_key : App ℕ
  wait_key w = next_key w.keys w

  unfoldable pub press_any_key : App (Unit {0})
  press_any_key =
      show (sep_prints ∷ line_prints (codes "Press any key to continue...") ∷ bottom_prints ∷ [])
      >> (wait_key >>= λ key. pure tt)

  -- A blank row and then any key: the end of a screen.
  unfoldable pub end_screen : App (Unit {0})
  end_screen = show (blank_prints ∷ []) >> press_any_key

  -- `let _ = unsafe { heci.init() }; let _ = heci.connect_amthi();`
  unfoldable pub reconnect : App (Unit {0})
  reconnect = ignore (on_ctx M.heci.init) >> ignore (on_ctx M.connect_amthi)
