-- ===== src/Lme/Transport.antt =====
-- What src/lme/mod.rs uses of `HeciContext` (src/heci/mod.rs, the UEFI target). `Ctx` is the
-- context together with the hardware behind it.
use amt_uefi_boot_app.Prelude.{ℕ, List, Bool}
use amt_uefi_boot_app.Outcome.{Action}

-- What `read_msg` returns: the byte count, the two addresses and the caller's buffer.
pub record Received : Type 0 where
  pub count : ℕ
  pub from_me : ℕ
  pub to_host : ℕ
  pub bytes : List ℕ

pub record Heci : Type 1 where
  pub Ctx : Type 0
  pub me_addr : Ctx → ℕ
  pub host_addr : Ctx → ℕ
  pub write_msg : ℕ → ℕ → List ℕ → Bool → Action Ctx (Unit {0})
  -- the buffer is that of the caller, with what earlier messages left in it
  pub read_msg : List ℕ → Action Ctx Received
  -- the context that `HeciContext::new` starts `init` on
  pub fresh : Ctx → Ctx
  pub init : Action Ctx (Unit {0})
  pub connect_client : List ℕ → Action Ctx (Unit {0})
  pub close : Ctx → Ctx
