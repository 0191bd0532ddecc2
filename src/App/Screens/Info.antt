-- ===== src/App/Screens/Info.antt =====
-- `do_amt_info` and `show_lan` of src/main.rs.
use amt_uefi_boot_app.App.Utf8.{text_or}
use amt_uefi_boot_app.Outcome.{pure, ◌>>◌, in_bounds, ◌>>=◌, modify}
use amt_uefi_boot_app.Ui.Box.{show_working, kv_prints, blank_prints, line_prints}
use amt_uefi_boot_app.Prelude.{
  ℕ, List, Option, [], if◌then◌else◌, codes, some, ◌∷◌, ◌==◌, ltb, none, ◌++◌, replicate, length,
  suc, leb, false, take, true, zero,
}
use amt_uefi_boot_app.App.Machine.{
  Machine, World, App, mei_of, try_ctx, show, heading, press_any_key, reconnect, paint,
}
use amt_uefi_boot_app.Amt.Getters.{
  get_control_mode, control_mode_str, get_provisioning_state, get_uuid, get_dns_suffix,
  get_lan_interface_settings, get_local_system_account, get_code_versions, LanInterfaceSettings,
  LsaCredentials,
}
use amt_uefi_boot_app.Amt.Versions.{CodeVersions, find}
use amt_uefi_boot_app.App.Format.{format_ipv4, format_mac, format_uuid, format_pwd_len}
use amt_uefi_boot_app.StrUtil.{ascii_len}

abbrev pub Texts : Type 0
Texts = List (ℕ → List (List ℕ))

abbrev pub version_row : CodeVersions → List ℕ → List ℕ → Texts
version_row cv key label = elim (find cv key) [
  | none ↦ []
  | some version ↦ kv_prints label (text_or version (codes "?")) ∷ []
]

unfoldable pub versions_rows : Option CodeVersions → Texts
versions_rows none = []
versions_rows (some cv) =
    version_row cv (codes "AMT") (codes "FW Version")
    ++ (version_row cv (codes "Build Number") (codes "Build Number")
        ++ version_row cv (codes "Sku") (codes "SKU"))

abbrev pub mode_rows : Option ℕ → Texts
mode_rows none = kv_prints (codes "Control Mode") (codes "(error)") ∷ []
mode_rows (some mode) = kv_prints (codes "Control Mode") (control_mode_str mode) ∷ []

unfoldable pub state_str : ℕ → List ℕ
state_str state =
    if state == 0
    then codes "Pre-Provisioning"
    else if state == 1
    then codes "In Provisioning"
    else if state == 2
    then codes "Post-Provisioning"
    else codes "Unknown"

abbrev pub state_rows : Option ℕ → Texts
state_rows none = []
state_rows (some state) = kv_prints (codes "Prov. State") (state_str state) ∷ []

abbrev pub uuid_rows : Option (List ℕ) → Texts
uuid_rows none = []
uuid_rows (some uuid) =
    kv_prints (codes "UUID") (text_or (format_uuid uuid (replicate 36 0)) (codes "?")) ∷ []

unfoldable pub lan_rows : List ℕ → Option LanInterfaceSettings → Texts
lan_rows header none = []
lan_rows header (some lan) =
    let (ip_buf, ip_len) = format_ipv4 lan.ipv4_addr (replicate 16 0) in
    let mac_buf = format_mac lan.mac_addr (replicate 18 0) in
    blank_prints
    ∷ line_prints header
    ∷ kv_prints (codes "Link Status") (if lan.link_status == 1 then codes "up" else codes "down")
    ∷ kv_prints (codes "DHCP") (if lan.dhcp_enabled then codes "Enabled" else codes "Disabled")
    ∷ kv_prints (codes "IPv4 Address") (text_or (take ip_len ip_buf) (codes "?"))
    ∷ kv_prints (codes "MAC Address") (text_or (take 17 mac_buf) (codes "?"))
    ∷ []

-- `position(|&b| b == 0).unwrap_or(0)`
abbrev pub name_len : List ℕ → ℕ
name_len name = if ltb (ascii_len name) (length name) then ascii_len name else 0

unfoldable pub account_rows : Option LsaCredentials → Texts
account_rows none = []
account_rows (some lsa) =
    let (pwd_msg, n) = format_pwd_len (replicate 24 0) (ascii_len lsa.password) in
    blank_prints
    ∷ line_prints (codes "--- Local System Account ---")
    ∷ kv_prints (codes "Username") (text_or (take (name_len lsa.username) lsa.username) (codes "?"))
    ∷ kv_prints (codes "Password") (text_or (take n pwd_msg) (codes "?"))
    ∷ []

module _ (M : Machine) where
  -- Thirty attempts, with the connection made anew between them.
  unfoldable pub canary : ℕ → App M (Option CodeVersions)
  canary zero = pure none
  canary (suc attempts) =
      let again =
        paint M (show_working (codes "AMT not ready, retrying..."))
        >> (modify (λ (w : World M). record w { ctx = M.heci.close w.ctx })
            >> (reconnect M >> canary attempts)) in
      try_ctx M (get_code_versions (mei_of M)) >>= λ answer. elim answer [
        | none ↦ again
        | some cv ↦ pure (some cv)
      ]

  -- `&suffix[..len]`
  abbrev pub suffix_rows : Option (List ℕ × ℕ) → App M (Unit {0})
  suffix_rows none = pure tt
  suffix_rows (some (suffix, len)) =
      if ltb 0 len
      then in_bounds (leb len (length suffix))
        >> show M (kv_prints (codes "DNS Suffix") (text_or (take len suffix) (codes "?")) ∷ [])
      else pure tt

  unfoldable pub info_screen : Texts → Option (List ℕ × ℕ) → Texts → App M (Unit {0})
  info_screen before suffix after =
      heading M 30 (codes "AMT Device Information")
      >> (show M before
          >> (suffix_rows suffix
              >> (show M after >> (show M (blank_prints ∷ []) >> press_any_key M))))

  unfoldable pub do_amt_info : App M (Unit {0})
  do_amt_info =
      let mei = mei_of M in
      paint M (show_working (codes "Loading AMT Information..."))
      >> (canary 30 >>= λ cv. try_ctx M (get_control_mode mei) >>= λ mode.
          try_ctx M (get_provisioning_state mei) >>= λ state. try_ctx M (get_uuid mei) >>= λ uuid.
          try_ctx M (get_dns_suffix mei) >>= λ suffix.
          try_ctx M (get_lan_interface_settings mei false) >>= λ wired.
          try_ctx M (get_lan_interface_settings mei true) >>= λ wireless.
          try_ctx M (get_local_system_account mei) >>= λ lsa.
          info_screen (versions_rows cv ++ (mode_rows mode ++ (state_rows state ++ uuid_rows uuid)))
            suffix
            (lan_rows (codes "--- Wired Adapter ---") wired
              ++ (lan_rows (codes "--- Wireless Adapter ---") wireless ++ account_rows lsa)))
