-- ===== src/Heci/Client/Asked.antt =====
-- The client that the connection of src/heci/mod.rs goes to.
use amt_uefi_boot_app.Outcome.{Action, Outcome, ok, err, and_then, panics, waits, fail, not_found}
use amt_uefi_boot_app.Prelude.{none, some, ℕ, List, replicate, ◌≡◌, Option, refl}
use amt_uefi_boot_app.Heci.Device.{HeciContext}
use amt_uefi_boot_app.Heci.Client.{connect_client_impl, hbm_connect, hbm_version, hbm_enumerate}
use amt_uefi_boot_app.Heci.Hbm.{client_prop_resp, enum_resp}
use amt_uefi_boot_app.Heci.Client.Search.{Found, find_client-Found, IsAsked}

module _ (rounds : ℕ) where
  -- The run of a connection: the versions, the bit map in `buf2`, the search from client 1 on, and
  -- steps 4 and 5 with the address and the message length of the client that is found.
  pub record IsConnected (uuid : List ℕ) (host : ℕ) (c : HeciContext)
      (r : Outcome (Unit {0}) × HeciContext) : Type 0 where
    pub buf1 : List ℕ
    pub first : HeciContext
    pub buf2 : List ℕ
    pub second : HeciContext
    pub version : hbm_version rounds (replicate 256 0) c ≡ (ok buf1, first)
    pub enumerated : hbm_enumerate rounds buf1 first ≡ (ok buf2, second)
    pub asked : IsAsked rounds (enum_resp buf2).valid_addresses uuid 1 buf2 second
    pub connected :
        r
        ≡ hbm_connect rounds
            (client_prop_resp asked.m.bytes).me_addr
            host
            asked.m.bytes
            (record asked.after { max_msg_len = (client_prop_resp asked.m.bytes).max_msg_length })

  abbrev pub Connects : List ℕ → ℕ → HeciContext → Outcome (Unit {0}) × HeciContext → Type 0
  Connects uuid host c (ok u, d) = IsConnected uuid host c (ok u, d)
  Connects uuid host c (err e, d) = Unit
  Connects uuid host c (panics, d) = Unit
  Connects uuid host c (waits, d) = Unit

  IsConnected-Connects :
      (c : HeciContext) (uuid : List ℕ) (host : ℕ) (r : Outcome (Unit {0}) × HeciContext)
      → IsConnected uuid host c r
      → Connects uuid host c r
  IsConnected-Connects c uuid host (ok u, d) h = h
  IsConnected-Connects c uuid host (err e, d) h = tt
  IsConnected-Connects c uuid host (panics, d) h = tt
  IsConnected-Connects c uuid host (waits, d) h = tt

  after-Connects :
      (c : HeciContext) {A : Type 0} (uuid : List ℕ) (host : ℕ)
      (k : A → Action HeciContext (Unit {0})) (r : Outcome A × HeciContext)
      → ((a : A) (s : HeciContext) → r ≡ (ok a, s) → Connects uuid host c (k a s))
      → Connects uuid host c (and_then r k)
  after-Connects c uuid host k (ok a, s) f = f a s refl
  after-Connects c uuid host k (err e, s) f = tt
  after-Connects c uuid host k (panics, s) f = tt
  after-Connects c uuid host k (waits, s) f = tt

  Found-Connects :
      (c : HeciContext) (uuid buf1 buf2 : List ℕ) (host : ℕ) (s t : HeciContext)
      (r : Outcome (Option ℕ × List ℕ) × HeciContext)
      → hbm_version rounds (replicate 256 0) c ≡ (ok buf1, s)
      → hbm_enumerate rounds buf1 s ≡ (ok buf2, t)
      → Found rounds (enum_resp buf2).valid_addresses uuid 1 buf2 t r
      → Connects uuid host c (
          and_then r (λ found. elim found.0 [
            | none ↦ fail not_found
            | some me ↦ hbm_connect rounds me host found.1
          ]))
  unfolding Found
  Found-Connects c uuid buf1 buf2 host s t (ok (some me, out), d) v e (asked, f, g, h) =
      IsConnected-Connects c uuid host _ (record {
        buf1 = buf1;
        first = s;
        buf2 = buf2;
        second = t;
        version = v;
        enumerated = e;
        asked = asked;
        connected = rw (f, g, h) refl;
      })
  Found-Connects c uuid buf1 buf2 host s t (ok (none, out), d) v e h = tt
  Found-Connects c uuid buf1 buf2 host s t (err x, d) v e h = tt
  Found-Connects c uuid buf1 buf2 host s t (panics, d) v e h = tt
  Found-Connects c uuid buf1 buf2 host s t (waits, d) v e h = tt

  -- If the connection to a client by UUID succeeds, the engine has agreed on the version and given a
  -- bit map, and the connection was made to the address, and with the message length, of the first
  -- client from 1 on that is in the bit map and answers the request for its properties with
  -- status 0 and this UUID in 28 bytes or more.
  pub connect_client_impl-Connects :
      (uuid : List ℕ) (host : ℕ) (c : HeciContext)
      → Connects uuid host c (connect_client_impl rounds uuid host c)
  unfolding connect_client_impl
  connect_client_impl-Connects uuid host c =
      after-Connects c uuid host _ (hbm_version rounds (replicate 256 0) c) λ buf1 s v.
        after-Connects c uuid host _ (hbm_enumerate rounds buf1 s) λ buf2 t e.
          Found-Connects c uuid buf1 buf2 host s t _ v e
            (find_client-Found rounds (enum_resp buf2).valid_addresses uuid 255 1 buf2 t)
