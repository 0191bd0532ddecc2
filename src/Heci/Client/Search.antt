-- ===== src/Heci/Client/Search.antt =====
-- The search for a client, step 3 of connect_client_impl of src/heci/mod.rs.
use amt_uefi_boot_app.Outcome.{
  Action, Outcome, ok, Error, err, on_result, panics, modify, ◌>>◌, waits, pure,
}
use amt_uefi_boot_app.Prelude.{
  List, ℕ, Bool, ◌≡◌, suc, ltb, not, false, true, Option, Bool-cases, bit_and, some, ◌||◌, ◌+◌,
  get_or, ◌≤◌, ◌==◌, same_bytes, ◌/◌, if◌then◌else◌, ◌^◌, none, ◌%◌, inl, inr, ap, arith, zero,
  refl,
}
use amt_uefi_boot_app.Lme.Transport.{Received}
use amt_uefi_boot_app.Heci.Device.{HeciContext}
use amt_uefi_boot_app.Heci.Client.{find_client, exchange, client_prop_request}
use amt_uefi_boot_app.Heci.Hbm.{client_prop_resp, hbm_cmd_host_client_prop_resp}

-- The answer is too short, or of another command, or has a status.
abbrev pub is_bad : Received → Bool
is_bad m =
    let resp = client_prop_resp m.bytes in
    ltb m.count 28 || (not (resp.cmd == hbm_cmd_host_client_prop_resp) || not (resp.status == 0))

abbrev pub is_in : List ℕ → ℕ → Bool
is_in valid i = not (bit_and (get_or valid (i / 8) 0) (2 ^ (i % 8)) == 0)

-- The search passes from a client, with a buffer and a state, on to a later one: over clients that
-- are not in the bit map, and over those that give an error, a bad answer or another UUID.
pub data Passed (rounds : ℕ) (valid uuid : List ℕ)
    : ℕ → List ℕ → HeciContext → ℕ → List ℕ → HeciContext → Type 0 where
  here : (i : ℕ) (buf : List ℕ) (s : HeciContext) → Passed rounds valid uuid i buf s i buf s
  absent :
      {i j : ℕ} {buf out : List ℕ} {s t : HeciContext}
      → is_in valid i ≡ false
      → Passed rounds valid uuid (i + 1) buf s j out t
      → Passed rounds valid uuid i buf s j out t
  failed :
      {i j : ℕ} {buf out : List ℕ} {s t : HeciContext} (e : Error) (u : HeciContext)
      → exchange rounds (client_prop_request rounds i) buf s ≡ (err e, u)
      → Passed rounds valid uuid (i + 1) buf u j out t
      → Passed rounds valid uuid i buf s j out t
  bad :
      {i j : ℕ} {buf out : List ℕ} {s t : HeciContext} (m : Received) (u : HeciContext)
      → exchange rounds (client_prop_request rounds i) buf s ≡ (ok m, u)
      → is_bad m ≡ true
      → Passed rounds valid uuid (i + 1) m.bytes u j out t
      → Passed rounds valid uuid i buf s j out t
  differs :
      {i j : ℕ} {buf out : List ℕ} {s t : HeciContext} (m : Received) (u : HeciContext)
      → exchange rounds (client_prop_request rounds i) buf s ≡ (ok m, u)
      → same_bytes (client_prop_resp m.bytes).uuid uuid ≡ false
      → Passed rounds valid uuid (i + 1) m.bytes u j out t
      → Passed rounds valid uuid i buf s j out t

-- The client that the search from client `i` on comes to: it is in the bit map, and its answer `m`
-- has the UUID.
pub record IsAsked (rounds : ℕ) (valid uuid : List ℕ) (i : ℕ) (buf : List ℕ) (s : HeciContext)
    : Type 0 where
  pub client : ℕ
  pub out : List ℕ
  pub before : HeciContext
  pub after : HeciContext
  pub m : Received
  pub passed : Passed rounds valid uuid i buf s client out before
  pub in_map : is_in valid client ≡ true
  pub answers : exchange rounds (client_prop_request rounds client) out before ≡ (ok m, after)
  pub long : 28 ≤ m.count
  pub command : (client_prop_resp m.bytes).cmd ≡ 0x85
  pub no_error : (client_prop_resp m.bytes).status ≡ 0
  pub matches : same_bytes (client_prop_resp m.bytes).uuid uuid ≡ true

module _ (rounds : ℕ) where
  unfoldable pub Found :
      List ℕ
      → List ℕ
      → ℕ
      → List ℕ
      → HeciContext
      → Outcome (Option ℕ × List ℕ) × HeciContext
      → Type 0
  Found valid uuid i buf s (ok (some me, out), d) =
      (asked : IsAsked rounds valid uuid i buf s) × (me ≡ (client_prop_resp asked.m.bytes).me_addr)
      × (out ≡ asked.m.bytes)
      × (d ≡ record asked.after { max_msg_len = (client_prop_resp asked.m.bytes).max_msg_length })
  Found valid uuid i buf s (ok (none, out), d) = Unit
  Found valid uuid i buf s (err e, d) = Unit
  Found valid uuid i buf s (panics, d) = Unit
  Found valid uuid i buf s (waits, d) = Unit

  -- What is found from a later client on is found from here.
  Found-later :
      (valid uuid : List ℕ) (i j : ℕ) (buf buf' : List ℕ) (s s' : HeciContext)
      (r : Outcome (Option ℕ × List ℕ) × HeciContext)
      → ((k : ℕ) (out : List ℕ) (t : HeciContext)
          → Passed rounds valid uuid j buf' s' k out t
          → Passed rounds valid uuid i buf s k out t)
      → Found valid uuid j buf' s' r
      → Found valid uuid i buf s r
  unfolding Found
  Found-later valid uuid i j buf buf' s s' (ok (some me, out), d) f (asked, g, h, k) = (
    record {
      client = asked.client;
      out = asked.out;
      before = asked.before;
      after = asked.after;
      m = asked.m;
      passed = f asked.client asked.out asked.before asked.passed;
      in_map = asked.in_map;
      answers = asked.answers;
      long = asked.long;
      command = asked.command;
      no_error = asked.no_error;
      matches = asked.matches;
    },
    g,
    h,
    k,
  )
  Found-later valid uuid i j buf buf' s s' (ok (none, out), d) f h = tt
  Found-later valid uuid i j buf buf' s s' (err e, d) f h = tt
  Found-later valid uuid i j buf buf' s s' (panics, d) f h = tt
  Found-later valid uuid i j buf buf' s s' (waits, d) f h = tt

  -- One client that is asked, with what the search gives after it.
  answered-Found :
      (valid uuid buf : List ℕ) (i : ℕ) (s : HeciContext)
      (again : List ℕ → Action HeciContext (Option ℕ × List ℕ)) (r : Outcome Received × HeciContext)
      → exchange rounds (client_prop_request rounds i) buf s ≡ r
      → is_in valid i ≡ true
      → ((out : List ℕ) (d : HeciContext) → Found valid uuid (i + 1) out d (again out d))
      → Found valid uuid i buf s (
          on_result r
            (λ m.
              let resp = client_prop_resp m.bytes in
              if ltb m.count 28
                || (not (resp.cmd == hbm_cmd_host_client_prop_resp) || not (resp.status == 0))
              then again m.bytes
              else if same_bytes resp.uuid uuid
              then (modify (λ t. record t { max_msg_len = resp.max_msg_length })
                  >> pure (some resp.me_addr, m.bytes))
              else again m.bytes)
            (λ e. again buf))
  unfolding Found
  answered-Found valid uuid buf i s again (ok m, t) e b f = elim (Bool-cases (is_bad m)) [
    | inl g ↦ rw g (
        Found-later valid uuid i (i + 1) buf m.bytes s t _ (λ k out u p. bad m t e g p)
          (f m.bytes t))
    | inr g ↦ elim (Bool-cases (same_bytes (client_prop_resp m.bytes).uuid uuid)) [
      | inr h ↦
          rw (g, h)
            (Found-later valid uuid i (i + 1) buf m.bytes s t _ (λ k out u p. differs m t e h p)
              (f m.bytes t))
      | inl h ↦
          rw (g, h)
            (
              record {
                client = i;
                out = buf;
                before = s;
                after = t;
                m = m;
                passed = here i buf s;
                in_map = b;
                answers = e;
                long = ground (arith, g);
                command = ground (arith, g);
                no_error = ground (arith, g);
                matches = h;
              },
              refl,
              refl,
              refl,
            )
    ]
  ]
  answered-Found valid uuid buf i s again (err x, t) e b f =
      Found-later valid uuid i (i + 1) buf buf s t _ (λ k out u p. failed x t e p) (f buf t)
  answered-Found valid uuid buf i s again (panics, t) e b f = tt
  answered-Found valid uuid buf i s again (waits, t) e b f = tt

  pub find_client-Found :
      (valid uuid : List ℕ) (left i : ℕ) (buf : List ℕ) (s : HeciContext)
      → Found valid uuid i buf s (find_client rounds valid uuid left i buf s)
  unfolding find_client Found
  find_client-Found valid uuid zero i buf s = tt
  find_client-Found valid uuid (suc left) i buf s =
      elim (Bool-cases (bit_and (get_or valid (i / 8) 0) (2 ^ (i % 8)) == 0)) [
        | inl e ↦ rw e (
            Found-later valid uuid i (i + 1) buf buf s s _ (λ k out u p. absent (ap not e) p)
              (find_client-Found valid uuid left (i + 1) buf s))
        | inr e ↦ rw e (
            answered-Found valid uuid buf i s (find_client rounds valid uuid left (i + 1)) _ refl
              (ap not e) (λ out d. find_client-Found valid uuid left (i + 1) out d))
      ]
