-- ===== src/Heci/Device.antt =====
-- `HeciContext` of src/heci/mod.rs (the UEFI target) and its registers. The hardware is what the
-- volatile reads yield, in their order; a run against any hardware is the run on the values that it
-- yielded. When they are used up, a read yields all ones, as from a device that is gone. The writes
-- are kept in their order. The stalls between polls are left out, and so is `mmio` in an access.
use amt_uefi_boot_app.Prelude.{
  ℕ, ◌-◌, ◌%◌, ◌^◌, List, [], ◌∷◌, ◌++◌, ◌==◌, if◌then◌else◌, ◌≡◌, arith, refl,
}
use amt_uefi_boot_app.Outcome.{ok, Action}
use amt_uefi_boot_app.Heci.Regs.{h_cb_ww}

pub record HeciContext : Type 0 where
  pub mmio : ℕ
  pub me_addr : ℕ
  pub host_addr : ℕ
  pub max_msg_len : ℕ
  pub cb_depth : ℕ
  pub inputs : List ℕ
  pub writes : List (ℕ × ℕ)

abbrev pub next_input : List ℕ → ℕ
next_input [] = 2 ^ 32 - 1
next_input (value ∷ rest) = value % 2 ^ 32

abbrev pub later_inputs : List ℕ → List ℕ
later_inputs [] = []
later_inputs (value ∷ rest) = rest

unfoldable pub reg_read : ℕ → Action HeciContext ℕ
reg_read offset s = (ok (next_input s.inputs), record s { inputs = later_inputs s.inputs })

unfoldable pub reg_write : ℕ → ℕ → Action HeciContext (Unit {0})
reg_write offset value s = (ok tt, record s { writes = s.writes ++ ((offset, value) ∷ []) })

-- The words put into the host's ring, among some writes.
abbrev pub ring_words : List (ℕ × ℕ) → List ℕ
ring_words [] = []
ring_words ((offset, value) ∷ rest) =
    let words = ring_words rest in if offset == h_cb_ww then value ∷ words else words

pub ring_words-append :
    (xs ys : List (ℕ × ℕ)) → ring_words (xs ++ ys) ≡ ring_words xs ++ ring_words ys
ring_words-append [] ys = refl
ring_words-append ((offset, value) ∷ xs) ys = ground (arith, ring_words-append xs ys)
