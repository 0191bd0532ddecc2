-- ===== src/Wsman/Soap.antt =====
-- The two messages of src/wsman.rs.
use amt_uefi_boot_app.Http.Digest.{Piece, raw, append_pieces, text}
use amt_uefi_boot_app.Prelude.{List, ℕ, codes, ◌∷◌, set, []}
pub mod Message

abbrev pub soap_env_open : List ℕ
soap_env_open =
    codes
      "<?xml version=\"1.0\" encoding=\"utf-8\"?><Envelope xmlns:xsi=\"http://www.w3.org/2001/XMLSchema-instance\" xmlns:xsd=\"http://www.w3.org/2001/XMLSchema\" xmlns:a=\"http://schemas.xmlsoap.org/ws/2004/08/addressing\" xmlns:w=\"http://schemas.dmtf.org/wbem/wsman/1/wsman.xsd\" xmlns=\"http://www.w3.org/2003/05/soap-envelope\">"

abbrev pub soap_env_close : List ℕ
soap_env_close = codes "</Envelope>"

abbrev pub get_general_settings_pieces : List Piece
get_general_settings_pieces =
    raw soap_env_open
    ∷ raw (codes "<Header>")
    ∷ raw (codes "<a:Action>http://schemas.xmlsoap.org/ws/2004/09/transfer/Get</a:Action>")
    ∷ raw (codes "<a:To>/wsman</a:To>")
    ∷ raw (
        codes
          "<w:ResourceURI>http://intel.com/wbem/wscim/1/amt-schema/1/AMT_GeneralSettings</w:ResourceURI>")
    ∷ raw (codes "<a:MessageID>1</a:MessageID>")
    ∷ raw (
        codes
          "<a:ReplyTo><a:Address>http://schemas.xmlsoap.org/ws/2004/08/addressing/role/anonymous</a:Address></a:ReplyTo>")
    ∷ raw (codes "<w:OperationTimeout>PT60S</w:OperationTimeout>")
    ∷ raw (codes "</Header>")
    ∷ raw (codes "<Body></Body>")
    ∷ raw soap_env_close
    ∷ []

unfoldable pub setup_ccm_pieces : List ℕ → List Piece
setup_ccm_pieces password_hash =
    raw soap_env_open
    ∷ raw (codes "<Header>")
    ∷ raw (
        codes
          "<a:Action>http://intel.com/wbem/wscim/1/ips-schema/1/IPS_HostBasedSetupService/Setup</a:Action>")
    ∷ raw (codes "<a:To>/wsman</a:To>")
    ∷ raw (
        codes
          "<w:ResourceURI>http://intel.com/wbem/wscim/1/ips-schema/1/IPS_HostBasedSetupService</w:ResourceURI>")
    ∷ raw (codes "<a:MessageID>2</a:MessageID>")
    ∷ raw (
        codes
          "<a:ReplyTo><a:Address>http://schemas.xmlsoap.org/ws/2004/08/addressing/role/anonymous</a:Address></a:ReplyTo>")
    ∷ raw (codes "<w:OperationTimeout>PT60S</w:OperationTimeout>")
    ∷ raw (codes "</Header>")
    ∷ raw (codes "<Body>")
    ∷ raw (
        codes
          "<h:Setup_INPUT xmlns:h=\"http://intel.com/wbem/wscim/1/ips-schema/1/IPS_HostBasedSetupService\">")
    ∷ raw (codes "<h:NetAdminPassEncryptionType>2</h:NetAdminPassEncryptionType>")
    ∷ raw (codes "<h:NetworkAdminPassword>")
    ∷ text password_hash
    ∷ raw (codes "</h:NetworkAdminPassword>")
    ∷ raw (codes "</h:Setup_INPUT>")
    ∷ raw (codes "</Body>")
    ∷ raw soap_env_close
    ∷ []

-- The buffer and the length.
unfoldable pub build_get_general_settings : List ℕ → List ℕ × ℕ
build_get_general_settings buf =
    let (filled, p) = append_pieces get_general_settings_pieces buf 0 in (set filled p 0, p)

unfoldable pub build_setup_ccm : List ℕ → List ℕ → List ℕ × ℕ
build_setup_ccm buf password_hash =
    let (filled, p) = append_pieces (setup_ccm_pieces password_hash) buf 0 in (set filled p 0, p)
