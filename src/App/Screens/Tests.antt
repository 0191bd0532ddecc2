-- ===== src/App/Screens/Tests.antt =====
-- Runs of the screens over a management engine with a list of answers, and their theorems there.
use amt_uefi_boot_app.Amt.Mei.{pthi_call, check_status}
use amt_uefi_boot_app.App.Screens.Activate.{do_activate_ccm}
use amt_uefi_boot_app.App.Screens.Deactivate.{do_deactivate, deactivate_mode, confirm}
use amt_uefi_boot_app.Ui.Screen.{init_screen}
use amt_uefi_boot_app.Outcome.{ok, Outcome, err, timeout, buffer_too_small}
use amt_uefi_boot_app.App.Screens.Menu.{app_main, choose, menu_screen, run_choice}
use amt_uefi_boot_app.Outcome.Rules.{Calm}
use amt_uefi_boot_app.Amt.Getters.{get_control_mode}
use amt_uefi_boot_app.App.Machine.{Machine, World, mei_of, wait_key, heading}
use amt_uefi_boot_app.Prelude.{
  List, ℕ, codes, [], ◌++◌, ◌∷◌, ◌≡◌, ◌⊎◌, length, if◌then◌else◌, leb, blit, refl,
}
use amt_uefi_boot_app.Lme.Script.{Wire, script, wire}
use amt_uefi_boot_app.App.Screens.Asks.{MayDeactivate, do_deactivate-MayDeactivate}

abbrev answered : List ℕ → List (List ℕ) → Wire → Outcome (ℕ × List ℕ) × Wire
answered buf [] w = (err timeout, w)
answered buf (answer ∷ rest) w =
    if leb (length answer) (length buf)
    then (ok (length answer, blit buf 0 answer), record w { inbox = rest })
    else (err buffer_too_small, record w { inbox = rest })

abbrev engine : Machine
engine = record {
  heci = script;
  send = λ bytes w. (ok tt, record w { outbox = w.outbox ++ (bytes ∷ []) });
  receive = λ buf w. answered buf w.inbox w;
  connect_amthi = λ w. (ok tt, w);
  resume = λ c t. t;
}

-- The answer to GetControlMode with the mode 1.
abbrev ccm_answer : List ℕ
ccm_answer = 1 ∷ 1 ∷ 0 ∷ 0 ∷ 0x6b ∷ 0 ∷ 0 ∷ 4 ∷ 8 ∷ 0 ∷ 0 ∷ 0 ∷ 0 ∷ 0 ∷ 0 ∷ 0 ∷ 1 ∷ 0 ∷ 0 ∷ 0 ∷ []

abbrev world_at : List ℕ → List (List ℕ) → World engine
world_at keys inbox = record {
  ctx = wire inbox;
  keys = keys;
  console = init_screen 800 600;
  request = [];
  auth = record {
    username = [];
    password = [];
    realm = [];
    nonce = [];
    qop = [];
    opaque = [];
    nc = 0;
  };
  response = record {
    status_code = 0;
    body = [];
    body_len = 0;
    auth_realm = [];
    auth_nonce = [];
    auth_qop = [];
    auth_opaque = [];
  };
}

-- A device in client control mode, and a user who says no.
abbrev refused : World engine
refused = world_at (codes "nq") (ccm_answer ∷ [])

do_deactivate-MayDeactivate_example :
    let (r, d) = get_control_mode (mei_of engine) (wire (ccm_answer ∷ [])) in
    (MayDeactivate engine r (codes "nq") ⊎ ((do_deactivate engine refused).1.ctx ≡ d))
    × ((r ≡ ok 0) ⊎ ((do_activate_ccm engine 9 9 [] refused).1.ctx ≡ d))
do_deactivate-MayDeactivate_example = do_deactivate-MayDeactivate engine 9 9 [] refused

-- The menu asks for the mode, and ends at the key Q.
menu_quits : (app_main engine 9 9 [] 3 (world_at (codes "q") (ccm_answer ∷ []))).0 ≡ ok tt
unfolding app_main choose menu_screen wait_key get_control_mode pthi_call blit
menu_quits = refl

-- A user who says no ends in the menu again, and quits there.
menu_asks :
    (app_main engine 9 9 [] 3
      (world_at (codes "bnq") (ccm_answer ∷ ccm_answer ∷ ccm_answer ∷ []))).0
    ≡ ok tt
unfolding app_main choose menu_screen wait_key run_choice do_deactivate heading deactivate_mode
    confirm get_control_mode pthi_call blit check_status
menu_asks = refl
