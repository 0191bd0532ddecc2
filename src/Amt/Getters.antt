-- ===== src/Amt/Getters.antt =====
-- The commands of src/amt.rs.
use amt_uefi_boot_app.Outcome.{
  Action, in_bounds, ◌>>=◌, pure, fail, ◌>>◌, device_error, buffer_too_small,
}
use amt_uefi_boot_app.Amt.Mei.{Mei, pthi_call, make_header, pthi_resp_header_size, pthi_header_size}
use amt_uefi_boot_app.Prelude.{
  ℕ, List, Bool, if◌then◌else◌, ◌==◌, ◌+◌, read_le32, codes, leb, length, min, slice, blit,
  replicate, read_le16, ltb, ◌&&◌, le_bytes, ◌-◌, set, take, ◌/◌, ◌^◌, ◌%◌, ◌∷◌, [], get_or,
}
use amt_uefi_boot_app.Amt.Versions.{CodeVersions, code_versions}

pub record LsaCredentials : Type 0 where
  pub username : List ℕ
  pub password : List ℕ

pub record LanInterfaceSettings : Type 0 where
  pub ipv4_addr : List ℕ
  pub dhcp_enabled : Bool
  pub dhcp_mode : ℕ
  pub link_status : ℕ
  pub mac_addr : List ℕ

abbrev pub max_dns_suffix_len : ℕ
max_dns_suffix_len = 192

abbrev pub lsa_field_len : ℕ
lsa_field_len = 33

unfoldable pub control_mode_str : ℕ → List ℕ
control_mode_str mode =
    if mode == 0
    then codes "Pre-Provisioning"
    else if mode == 1
    then codes "Client Control Mode (CCM)"
    else if mode == 2
    then codes "Admin Control Mode (ACM)"
    else codes "Unknown"

module _ (M : Mei) where
  -- A command with no payload, and a buffer of `size` bytes for its answer.
  abbrev pub plain_call : ℕ → ℕ → Action M.Ctx (ℕ × List ℕ)
  plain_call command size =
      pthi_call M (make_header (replicate pthi_header_size 0) command 0) (replicate size 0)

  -- `&resp[PTHI_RESP_HEADER_SIZE..resp_len]`
  abbrev pub payload : ℕ × List ℕ → Action M.Ctx (List ℕ)
  payload (received, resp) =
      in_bounds (leb pthi_resp_header_size received && leb received (length resp))
      >> pure (slice resp pthi_resp_header_size received)

  unfoldable pub get_control_mode : Action M.Ctx ℕ
  get_control_mode = plain_call 0x0400_006b 20 >>= λ (received, resp). pure (read_le32 resp 16)

  unfoldable pub get_provisioning_state : Action M.Ctx ℕ
  get_provisioning_state =
      plain_call 0x0400_0011 20 >>= λ (received, resp). pure (read_le32 resp 16)

  unfoldable pub get_uuid : Action M.Ctx (List ℕ)
  get_uuid = plain_call 0x0400_005c 32 >>= λ (received, resp). pure (slice resp 16 32)

  unfoldable pub get_local_system_account : Action M.Ctx LsaCredentials
  get_local_system_account =
      pthi_call M (make_header (replicate 52 0) 0x0400_0067 40) (replicate 256 0)
      >>= λ (received, resp).
          if ltb received 82
          then fail device_error
          else pure (record {
            username = set (slice resp 16 49) 32 0;
            password = set (slice resp 49 82) 32 0;
          })

  unfoldable pub get_code_versions : Action M.Ctx CodeVersions
  get_code_versions = plain_call 0x0400_001a 4096 >>= λ answer.
      payload answer >>= λ bytes. pure (code_versions bytes)

  unfoldable pub set_dns_suffix : List ℕ → Action M.Ctx (Unit {0})
  set_dns_suffix suffix =
      let payload_len = 2 + length suffix in
      let req = make_header (replicate 206 0) 0x0400_002f payload_len in
      let req = blit req 12 (le_bytes 2 (length suffix)) in
      let req = blit req 14 suffix in
      if ltb max_dns_suffix_len (length suffix)
      then fail buffer_too_small
      else pthi_call M (take (12 + payload_len) req) (replicate 32 0) >>= λ answer. pure tt

  unfoldable pub get_dns_suffix : Action M.Ctx (List ℕ × ℕ)
  get_dns_suffix = plain_call 0x0400_0036 1100 >>= λ answer. payload answer >>= λ bytes.
      let copy_len = min (min (read_le16 bytes 0) 255) (length bytes - 2) in
      if ltb (length bytes) 2
      then pure (replicate 256 0, 0)
      else pure (blit (replicate 256 0) 0 (slice bytes 2 (2 + copy_len)), copy_len)

  unfoldable pub lan_settings : List ℕ → Action M.Ctx LanInterfaceSettings
  lan_settings bytes =
      let ip = read_le32 bytes 4 in
      let mac = slice bytes 14 20 in
      if ltb (length bytes) 12
      then fail device_error
      else pure (record {
        ipv4_addr =
            ip / 2 ^ 24 % 2 ^ 8 ∷ ip / 2 ^ 16 % 2 ^ 8 ∷ ip / 2 ^ 8 % 2 ^ 8 ∷ ip % 2 ^ 8 ∷ [];
        dhcp_enabled = read_le32 bytes 8 == 1;
        dhcp_mode = (if ltb 12 (length bytes) then get_or bytes 12 0 else 0);
        link_status = (if ltb 13 (length bytes) then get_or bytes 13 0 else 0);
        mac_addr = (if leb 20 (length bytes) then mac else replicate 6 0);
      })

  unfoldable pub get_lan_interface_settings : Bool → Action M.Ctx LanInterfaceSettings
  unfolding lan_settings
  get_lan_interface_settings wireless =
      let idx = if wireless then 1 else 0 in
      pthi_call M (blit (make_header (replicate 16 0) 0x0400_0048 4) 12 (le_bytes 4 idx))
        (replicate 64 0)
      >>= λ answer. payload answer >>= lan_settings

  unfoldable pub unprovision : Action M.Ctx (Unit {0})
  unprovision =
      pthi_call M (make_header (replicate 16 0) 0x0400_0010 4) (replicate 64 0) >>= λ answer.
      pure tt
