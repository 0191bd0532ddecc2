-- ===== src/Amt/Safety.antt =====
-- The commands of src/amt.rs come back, and what they give.
use amt_uefi_boot_app.Outcome.{Action, and_then}
use amt_uefi_boot_app.Amt.Getters.{
  LanInterfaceSettings, LsaCredentials, payload, get_control_mode, get_provisioning_state, get_uuid,
  get_local_system_account, get_code_versions, set_dns_suffix, get_dns_suffix,
  get_lan_interface_settings, unprovision, plain_call, max_dns_suffix_len,
}
use amt_uefi_boot_app.Amt.Versions.{
  CodeVersions, read_entries, code_versions, read_entry, empty_entry,
}
use amt_uefi_boot_app.Prelude.{
  List, ℕ, ◌≤◌, length, ◌≡◌, ◌+◌, get_or, suc, arith, length-set, set, ◌∙◌, zero, min, replicate,
  read_le32, leb, length-slice, Bool-cases, Bool, take, ltb, ◌&&◌, inl, length-take, true, inr,
  ltb_false→le, slice, read_le16, leb→le, get_or-set, ◌-◌, refl, length-blit,
}
use amt_uefi_boot_app.Amt.Mei.{Mei, pthi_call, make_header, pthi_resp_header_size, pthi_header_size}
use amt_uefi_boot_app.Outcome.Rules.{Gives, Gives-and_then}

-- What the commands rely on: both operations come back, and `receive` gives a count within the
-- caller's buffer, which keeps its length.
pub record Fits (M : Mei) : Type 0 where
  pub sends : (bytes : List ℕ) (c : M.Ctx) → Gives (λ _. Unit {0}) (M.send bytes c).0
  pub receives :
      (buf : List ℕ) (c : M.Ctx)
      → Gives
          (λ (answer : ℕ × List ℕ). (answer.0 ≤ length buf) × (length answer.1 ≡ length buf))
          (M.receive buf c).0

abbrev IsAnswer : List ℕ → ℕ × List ℕ → Type 0
IsAnswer resp (received, buf) =
    (16 ≤ received) × (received ≤ length resp) × (length buf ≡ length resp)

abbrev pub IsVersions : CodeVersions → Type 0
IsVersions cv = (cv.count ≤ 20) × (length cv.bios_version ≡ 65) × (length cv.entries ≡ 20)

abbrev pub IsSuffix : List ℕ × ℕ → Type 0
IsSuffix (suffix, len) = (length suffix ≡ 256) × (len ≤ 255)

abbrev pub IsSettings : LanInterfaceSettings → Type 0
IsSettings settings = (length settings.ipv4_addr ≡ 4) × (length settings.mac_addr ≡ 6)

abbrev pub IsCredentials : LsaCredentials → Type 0
IsCredentials creds =
    (length creds.username ≡ 33)
    × (length creds.password ≡ 33)
    × (get_or creds.username 32 1 ≡ 0)
    × (get_or creds.password 32 1 ≡ 0)

read_entries-IsVersions :
    (bytes : List ℕ) (left i offset : ℕ) (cv : CodeVersions)
    → IsVersions cv
    → i ≤ 20
    → left + i ≤ 20
    → IsVersions (read_entries bytes left i offset cv)
unfolding read_entries
read_entries-IsVersions bytes zero i offset cv h l m = h
read_entries-IsVersions bytes (suc left) i offset cv h l m =
    let size = length-set cv.entries i (read_entry bytes offset) in
    let cv' : CodeVersions = record cv { entries = set cv.entries i (read_entry bytes offset) } in
    ground (
      arith,
      size,
      read_entries-IsVersions bytes left (suc i) (offset + 44) cv' (h.0, h.1, size ∙ h.2)
          (omega arith) (omega arith),
    )

code_versions-IsVersions : (bytes : List ℕ) → IsVersions (code_versions bytes)
unfolding code_versions
code_versions-IsVersions bytes =
    let count = min (read_le32 bytes 65) 20 in
    let cv : CodeVersions = record {
      bios_version = take 65 bytes;
      entries = replicate 20 empty_entry;
      count = count;
    } in
    let size = length-take 65 bytes in
    elim (Bool-cases (ltb (length bytes) 65)) [
      | inl e ↦ rw e (omega arith)
      | inr e ↦ elim (Bool-cases (ltb (length bytes) 69)) [
        | inl f ↦ rw (e, f) (omega (arith, size, ltb_false→le _ _ e))
        | inr f ↦
            rw (e, f)
              (read_entries-IsVersions bytes count 0 69 cv (omega (arith, size, ltb_false→le _ _ e))
                (omega arith) (omega arith))
      ]
    ]

module _ {M : Mei} (fits : Fits M) where
  pthi_call-Gives :
      (cmd resp : List ℕ) (c : M.Ctx) → Gives (IsAnswer resp) (pthi_call M cmd resp c).0
  unfolding pthi_call
  pthi_call-Gives cmd resp c =
      Gives-and_then (λ _. Unit {0}) (IsAnswer resp) _ (M.send cmd c) (fits.sends cmd c)
        λ _ d _.
          Gives-and_then
            (λ (answer : ℕ × List ℕ). (answer.0 ≤ length resp) × (length answer.1 ≡ length resp))
            (IsAnswer resp) _ (M.receive resp d) (fits.receives resp d)
            (λ answer e b. ground (arith, b))

  -- A command whose continuation comes back on every answer.
  call-Gives :
      {B : Type 0} (Q : B → Type 0) (cmd resp : List ℕ) (k : ℕ × List ℕ → Action M.Ctx B)
      (c : M.Ctx)
      → ((answer : ℕ × List ℕ) (d : M.Ctx) → IsAnswer resp answer → Gives Q (k answer d).0)
      → Gives Q (and_then (pthi_call M cmd resp c) k).0
  call-Gives Q cmd resp k c f =
      Gives-and_then (IsAnswer resp) Q k (pthi_call M cmd resp c) (pthi_call-Gives cmd resp c) f

  plain-Gives :
      {B : Type 0} (Q : B → Type 0) (command size : ℕ) (k : ℕ × List ℕ → Action M.Ctx B) (c : M.Ctx)
      → ((answer : ℕ × List ℕ) (d : M.Ctx)
          → IsAnswer (replicate size 0) answer
          → Gives Q (k answer d).0)
      → Gives Q (and_then (plain_call M command size c) k).0
  plain-Gives Q command size k c f =
      call-Gives Q (make_header (replicate pthi_header_size 0) command 0) (replicate size 0) k c f

  -- The bytes behind the header are within the buffer.
  payload-Gives :
      {B : Type 0} (Q : B → Type 0) (resp : List ℕ) (answer : ℕ × List ℕ)
      (k : List ℕ → Action M.Ctx B) (d : M.Ctx)
      → IsAnswer resp answer
      → ((bytes : List ℕ) (e : M.Ctx) → Gives Q (k bytes e).0)
      → Gives Q (and_then (payload M answer d) k).0
  payload-Gives Q resp (received, buf) k d b f =
      let inside : (leb pthi_resp_header_size received && leb received (length buf)) ≡ true =
        ground (arith, b) in
      rw inside (f (slice buf pthi_resp_header_size received) d)

  control_mode-Gives : (c : M.Ctx) → Gives (λ _. Unit {0}) (get_control_mode M c).0
  unfolding get_control_mode
  control_mode-Gives c = plain-Gives (λ _. Unit {0}) 0x0400_006b 20 _ c (λ answer d b. tt)

  provisioning_state-Gives : (c : M.Ctx) → Gives (λ _. Unit {0}) (get_provisioning_state M c).0
  unfolding get_provisioning_state
  provisioning_state-Gives c = plain-Gives (λ _. Unit {0}) 0x0400_0011 20 _ c (λ answer d b. tt)

  uuid-Gives : (c : M.Ctx) → Gives (λ uuid. length uuid ≡ 16) (get_uuid M c).0
  unfolding get_uuid
  uuid-Gives c =
      plain-Gives (λ uuid. length uuid ≡ 16) 0x0400_005c 32 _ c
        (λ answer d b. length-slice answer.1 16 32 (omega arith) (omega (arith, b)))

  account-Gives : (c : M.Ctx) → Gives IsCredentials (get_local_system_account M c).0
  unfolding get_local_system_account
  account-Gives c = call-Gives IsCredentials _ (replicate 256 0) _ c λ (received, buf) d b.
      elim (Bool-cases (ltb received 82)) [
        | inl e ↦ rw e tt
        | inr e ↦
            let user = length-slice buf 16 49 (omega arith) (omega (arith, b)) in
            let pass = length-slice buf 49 82 (omega arith) (omega (arith, b)) in
            rw e (
              length-set (slice buf 16 49) 32 0 ∙ user,
              length-set (slice buf 49 82) 32 0 ∙ pass,
              get_or-set (slice buf 16 49) 32 0 1 (omega (arith, user)),
              get_or-set (slice buf 49 82) 32 0 1 (omega (arith, pass)),
            )
      ]

  IsVersions-Gives : (c : M.Ctx) → Gives IsVersions (get_code_versions M c).0
  unfolding get_code_versions
  IsVersions-Gives c = plain-Gives IsVersions 0x0400_001a 4096 _ c λ answer d b.
      payload-Gives IsVersions (replicate 4096 0) answer _ d b
        λ bytes e. code_versions-IsVersions bytes

  set_suffix-Gives :
      (suffix : List ℕ) (c : M.Ctx) → Gives (λ _. Unit {0}) (set_dns_suffix M suffix c).0
  unfolding set_dns_suffix
  set_suffix-Gives suffix c = elim (Bool-cases (ltb max_dns_suffix_len (length suffix))) [
    | inl e ↦ rw e tt
    | inr e ↦ rw e (call-Gives (λ _. Unit {0}) _ (replicate 32 0) _ c λ answer d b. tt)
  ]

  suffix-Gives : (c : M.Ctx) → Gives IsSuffix (get_dns_suffix M c).0
  unfolding get_dns_suffix
  suffix-Gives c = plain-Gives IsSuffix 0x0400_0036 1100 _ c λ answer d b.
      payload-Gives IsSuffix (replicate 1100 0) answer _ d b λ bytes e.
        elim (Bool-cases (ltb (length bytes) 2)) [
          | inl f ↦ rw f (omega arith)
          | inr f ↦
              let copy_len = min (min (read_le16 bytes 0) 255) (length bytes - 2) in
              let size =
                length-slice bytes 2 (2 + copy_len) (omega arith)
                  (omega (arith, ltb_false→le _ _ f)) in
              rw f (
                length-blit (replicate 256 0) 0 (slice bytes 2 (2 + copy_len))
                    (omega (arith, size)),
                omega arith,
              )
        ]

  lan-Gives :
      (wireless : Bool) (c : M.Ctx) → Gives IsSettings (get_lan_interface_settings M wireless c).0
  unfolding get_lan_interface_settings
  lan-Gives wireless c = call-Gives IsSettings _ (replicate 64 0) _ c λ answer d b.
      payload-Gives IsSettings (replicate 64 0) answer _ d b λ bytes e.
        elim (Bool-cases (ltb (length bytes) 12)) [
          | inl f ↦ rw f tt
          | inr f ↦ elim (Bool-cases (leb 20 (length bytes))) [
            | inl g ↦ rw (f, g) (refl, length-slice bytes 14 20 (omega arith) (leb→le _ _ g))
            | inr g ↦ rw (f, g) (refl, refl)
          ]
        ]

  unprovision-Gives : (c : M.Ctx) → Gives (λ _. Unit {0}) (unprovision M c).0
  unfolding unprovision
  unprovision-Gives c = call-Gives (λ _. Unit {0}) _ (replicate 64 0) _ c λ answer d b. tt

  pub commands-Gives :
      (suffix : List ℕ) (wireless : Bool) (c : M.Ctx)
      → Gives (λ _. Unit {0}) (get_control_mode M c).0
        × Gives (λ _. Unit {0}) (get_provisioning_state M c).0
        × Gives (λ uuid. length uuid ≡ 16) (get_uuid M c).0
        × Gives IsCredentials (get_local_system_account M c).0
        × Gives IsVersions (get_code_versions M c).0
        × Gives (λ _. Unit {0}) (set_dns_suffix M suffix c).0
        × Gives IsSuffix (get_dns_suffix M c).0
        × Gives IsSettings (get_lan_interface_settings M wireless c).0
        × Gives (λ _. Unit {0}) (unprovision M c).0
  commands-Gives suffix wireless c = (
    control_mode-Gives c,
    provisioning_state-Gives c,
    uuid-Gives c,
    account-Gives c,
    IsVersions-Gives c,
    set_suffix-Gives suffix c,
    suffix-Gives c,
    lan-Gives wireless c,
    unprovision-Gives c,
  )
