-- ===== src/Lme/Script.antt =====
-- A transport for the tests: the messages of the management engine stand in a list, and what is
-- sent is kept. With no message left a read times out.
use amt_uefi_boot_app.Lme.Session.{Session}
use amt_uefi_boot_app.Lme.Process.Total.{SendReturns}
use amt_uefi_boot_app.Lme.Session.Recv.{ReadsBytes, IsBytes, ReceivesBytes}
use amt_uefi_boot_app.Outcome.{ok, Outcome, err, timeout}
use amt_uefi_boot_app.Prelude.{List, ℕ, ◌++◌, length, [], ◌∷◌, ◌%◌, false, arith, suc, zero}
use amt_uefi_boot_app.Lme.Transport.{Heci, Received}
use mathlib.Core.List.{map}

pub record Wire : Type 0 where
  pub inbox : List (List ℕ)
  pub outbox : List (List ℕ)

-- A message for the client with address 7, connected as host 2.
abbrev deliver : List ℕ → Received
deliver m = record { count = length m; from_me = 7; to_host = 2; bytes = map (λ b. b % 256) m }

abbrev read_wire : List (List ℕ) → List ℕ → Wire → Outcome Received × Wire
read_wire [] tmp w = (err timeout, w)
read_wire (m ∷ rest) tmp w = (ok (deliver m), record w { inbox = rest })

abbrev pub script : Heci
script = record {
  Ctx = Wire;
  me_addr = λ w. 7;
  host_addr = λ w. 2;
  write_msg = λ me host m complete w. (ok tt, record w { outbox = w.outbox ++ (m ∷ []) });
  read_msg = λ tmp w. read_wire w.inbox tmp w;
  fresh = λ w. w;
  init = λ w. (ok tt, w);
  connect_client = λ uuid w. (ok tt, w);
  close = λ w. w;
}

IsBytes-map : (m : List ℕ) → IsBytes (map (λ b. b % 256) m)
IsBytes-map [] i = omega arith
IsBytes-map (x ∷ m) zero = omega arith
IsBytes-map (x ∷ m) (suc i) = IsBytes-map m i

reads_wire : (box : List (List ℕ)) (tmp : List ℕ) (w : Wire) → ReceivesBytes (read_wire box tmp w).0
reads_wire [] tmp w = tt
reads_wire (m ∷ rest) tmp w = IsBytes-map m

pub script_reads : ReadsBytes script
script_reads tmp w b = reads_wire w.inbox tmp w

pub script_sends : SendReturns script
script_sends me host m w = tt

abbrev pub session_at : Wire → List ℕ → ℕ → Session script
session_at w buf len = record {
  heci = w;
  our_channel = 31;
  amt_channel = 9;
  channel_active = false;
  tx_window = 100;
  rx_buf = buf;
  rx_len = len;
  port_forward_ok = false;
  hbm_send_credits = 3;
}

abbrev pub wire : List (List ℕ) → Wire
wire inbox = record { inbox = inbox; outbox = [] }
