-- ===== src/Wsman/Soap/Message.antt =====
-- The second message of src/wsman.rs, read back.
use amt_uefi_boot_app.Http.Digest.Formula.{hash_text, length-hash_text, str-hex_digest}
use amt_uefi_boot_app.Wsman.Xml.{ends_text, xml_extract}
use amt_uefi_boot_app.Http.Digest.{append_pieces, raw, text, byte, written}
use amt_uefi_boot_app.Wsman.Call.{hash_admin_password}
use amt_uefi_boot_app.Md5.{hex_bytes, md5_hash}
use amt_uefi_boot_app.StrUtil.Terminated.{str, ascii_len-take, length-str}
use amt_uefi_boot_app.Http.Digest.Text.{pieces_text, HasRoom, append_pieces-HoldsText, written_lem}
use amt_uefi_boot_app.Wsman.Xml.Extract.{
  Item, opens, items_text, element_text, closes, runs_on, xml_extract_lem,
}
use amt_uefi_boot_app.StrUtil.{ascii_len}
use amt_uefi_boot_app.Prelude.{
  List, ℕ, codes, length, ◌≡◌, ◌++◌, ◌∷◌, [], ◌≤◌, ◌+◌, arith, refl, length-append_bytes,
  Bool-cases, ◌==◌, inl, inr, take, ◌∙◌, ◌<◌, sym, true, replicate, take_all, ap, take-set,
  length-append, append-nil,
}
use amt_uefi_boot_app.Wsman.Soap.{setup_ccm_pieces, build_setup_ccm}

-- What stands before the password's element.
abbrev before_password : List Item
before_password =
    opens (codes "?xml") b' ' (codes "version=\"1.0\" encoding=\"utf-8\"?>")
    ∷ opens (codes "Envelope") b' ' (
        codes
          "xmlns:xsi=\"http://www.w3.org/2001/XMLSchema-instance\" xmlns:xsd=\"http://www.w3.org/2001/XMLSchema\" xmlns:a=\"http://schemas.xmlsoap.org/ws/2004/08/addressing\" xmlns:w=\"http://schemas.dmtf.org/wbem/wsman/1/wsman.xsd\" xmlns=\"http://www.w3.org/2003/05/soap-envelope\">")
    ∷ opens (codes "Header") b'>' []
    ∷ opens (codes "a:Action") b'>'
        (codes "http://intel.com/wbem/wscim/1/ips-schema/1/IPS_HostBasedSetupService/Setup")
    ∷ closes (codes "a:Action>")
    ∷ opens (codes "a:To") b'>' (codes "/wsman")
    ∷ closes (codes "a:To>")
    ∷ opens (codes "w:ResourceURI") b'>'
        (codes "http://intel.com/wbem/wscim/1/ips-schema/1/IPS_HostBasedSetupService")
    ∷ closes (codes "w:ResourceURI>")
    ∷ opens (codes "a:MessageID") b'>' (codes "2")
    ∷ closes (codes "a:MessageID>")
    ∷ opens (codes "a:ReplyTo") b'>' []
    ∷ opens (codes "a:Address") b'>'
        (codes "http://schemas.xmlsoap.org/ws/2004/08/addressing/role/anonymous")
    ∷ closes (codes "a:Address>")
    ∷ closes (codes "a:ReplyTo>")
    ∷ opens (codes "w:OperationTimeout") b'>' (codes "PT60S")
    ∷ closes (codes "w:OperationTimeout>")
    ∷ closes (codes "Header>")
    ∷ opens (codes "Body") b'>' []
    ∷ opens (codes "h:Setup_INPUT") b' '
        (codes "xmlns:h=\"http://intel.com/wbem/wscim/1/ips-schema/1/IPS_HostBasedSetupService\">")
    ∷ opens (codes "h:NetAdminPassEncryptionType") b'>' (codes "2")
    ∷ closes (codes "h:NetAdminPassEncryptionType>")
    ∷ []

abbrev after_password : List ℕ
after_password = codes "/h:NetworkAdminPassword></h:Setup_INPUT></Body></Envelope>"

setup_ccm_pieces_lem :
    (hash : List ℕ)
    → pieces_text (setup_ccm_pieces hash)
      ≡ items_text before_password
        ++ element_text (codes "h:NetworkAdminPassword") [] (str hash) after_password
unfolding setup_ccm_pieces
setup_ccm_pieces_lem hash = refl

length-setup_ccm :
    (hash : List ℕ) → length (str hash) ≤ 32 → length (pieces_text (setup_ccm_pieces hash)) ≤ 2048
unfolding setup_ccm_pieces
length-setup_ccm hash h = omega (arith, length-append_bytes)

ascii_len-append :
    (s t : List ℕ) → ascii_len s ≡ length s → ascii_len (s ++ t) ≡ length s + ascii_len t
unfolding ascii_len
ascii_len-append [] t h = omega arith
ascii_len-append (x ∷ s) t h = elim (Bool-cases (x == 0)) [
  | inl e ↦ absurd (ground (arith, e))
  | inr e ↦ rw e (omega (arith, ascii_len-append s t (ground (arith, e))))
]

HasRoom-setup_ccm : (hash : List ℕ) → HasRoom 2048 0 (setup_ccm_pieces hash)
unfolding setup_ccm_pieces
HasRoom-setup_ccm hash = tt

-- What is sent of the buffer.
setup_text_lem :
    (soap hash : List ℕ)
    → length soap ≡ 2048
    → length (str hash) ≤ 32
    → let (buf, len) = build_setup_ccm soap hash in
      take len buf ≡ pieces_text (setup_ccm_pieces hash)
unfolding build_setup_ccm
setup_text_lem soap hash h s =
    let pieces = setup_ccm_pieces hash in
    let out = append_pieces pieces soap 0 in
    let (held, size, at) =
      append_pieces-HoldsText pieces 2048 [] soap 0 (HasRoom-setup_ccm hash)
        (sym (take_all 2048 [] (omega arith)), h, omega arith) in
    take-set out.1 out.0 0 ∙ held ∙ take_all 2048 (pieces_text pieces) (length-setup_ccm hash s)

setup_text-zeros :
    (hash : List ℕ) → let doc = pieces_text (setup_ccm_pieces hash) in ascii_len doc ≡ length doc
unfolding setup_ccm_pieces ascii_len
setup_text-zeros hash =
    let front = items_text before_password ++ codes "<h:NetworkAdminPassword>" in
    let back = b'<' ∷ after_password in
    let inner =
      ascii_len-append (str hash) back
        (ascii_len-take (ascii_len hash) hash (omega arith) ∙ sym (length-str hash)) in
    ascii_len-append front (str hash ++ back) refl
    ∙ ap (λ n. length front + n) (inner ∙ sym (length-append (str hash) back))
    ∙ sym (length-append front (str hash ++ back))

runs_on-hex_bytes : (d : List ℕ) → runs_on ends_text (hex_bytes d) ≡ true
unfolding hex_bytes
runs_on-hex_bytes [] = refl
runs_on-hex_bytes (b ∷ d) = ground (arith, runs_on-hex_bytes d)

-- The hash of the administrator's password.
hash_admin_password_lem :
    (realm password : List ℕ)
    → length (str realm) < 128
    → length password ≤ 120
    → str (hash_admin_password realm password)
      ≡ hash_text (codes "admin:" ++ (str realm ++ (b':' ∷ password)))
unfolding hash_admin_password
hash_admin_password_lem realm password r p =
    let pieces = raw (codes "admin:") ∷ text realm ∷ byte b':' ∷ raw password ∷ [] in
    str-hex_digest (written 256 pieces)
    ∙ ap hash_text (
        written_lem 256 pieces (omega (arith, r)) (omega (arith, r, p, length-append_bytes))
        ∙ ap (λ t. codes "admin:" ++ (str realm ++ (b':' ∷ t))) (append-nil password))

-- The message of the second step, built in a buffer of 2048 bytes with whatever the first left there, is XML in
-- which the element `NetworkAdminPassword` holds MD5(admin:realm:password) in hexadecimal: the
-- program's own `xml_extract` reads it back. The realm has at most 127 bytes and the password 120.
pub setup_message_lem :
    (soap realm password : List ℕ)
    → length soap ≡ 2048
    → length (str realm) < 128
    → length password ≤ 120
    → let (buf, len) = build_setup_ccm soap (hash_admin_password realm password) in
      let (found, value) =
        xml_extract (take len buf) (codes "NetworkAdminPassword") (replicate 33 0) in
      (found ≡ true) × (str value ≡ hash_text (codes "admin:" ++ (str realm ++ (b':' ∷ password))))
unfolding build_setup_ccm
setup_message_lem soap realm password h r p =
    let hash = hash_admin_password realm password in
    let doc = pieces_text (setup_ccm_pieces hash) in
    let input = codes "admin:" ++ (str realm ++ (b':' ∷ password)) in
    let hashed = hash_admin_password_lem realm password r p in
    let size : length (str hash) ≡ 32 = ap length hashed ∙ length-hash_text input in
    let sent = setup_text_lem soap hash h (omega (arith, size)) in
    let doc_text : str doc ≡ doc =
      ap (λ n. take n doc) (setup_text-zeros hash) ∙ take_all (length doc) doc (omega arith) in
    let hex : runs_on ends_text (str hash) ≡ true =
      ap (runs_on ends_text) hashed ∙ runs_on-hex_bytes (md5_hash input) in
    let (found, value, _) =
      xml_extract_lem doc (replicate 33 0) before_password (codes "NetworkAdminPassword")
        (codes "h:NetworkAdminPassword") [] (str hash) after_password
        (doc_text ∙ setup_ccm_pieces_lem hash) refl refl refl refl hex
        (ascii_len-take (ascii_len hash) hash (omega arith) ∙ sym (length-str hash))
        (omega arith) in
    rw sent (found, value ∙ take_all 32 (str hash) (omega (arith, size)) ∙ hashed)
