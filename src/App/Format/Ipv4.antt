-- ===== src/App/Format/Ipv4.antt =====
-- Addresses printed by src/main.rs, read back.
use amt_uefi_boot_app.Http.Digest.Text.{pieces_text}
use amt_uefi_boot_app.Prelude.{List, ℕ, ◌∷◌, if◌then◌else◌, ◌+◌, ◌++◌, ◌==◌, ◌*◌, ◌-◌, []}
use amt_uefi_boot_app.App.Format.{octet_pieces}

-- Decimal numbers between dots.
abbrev pub read_ipv4 : List ℕ → ℕ → List ℕ
read_ipv4 [] n = n ∷ []
read_ipv4 (c ∷ s) n = if c == b'.' then n ∷ read_ipv4 s 0 else read_ipv4 s (n * 10 + (c - b'0'))

module _ (a b c d : ℕ) where
  abbrev address : List ℕ
  address = a ∷ b ∷ c ∷ d ∷ []

  abbrev octet_text : ℕ → List ℕ
  octet_text octet = pieces_text (octet_pieces octet)

  abbrev address_text : List ℕ
  address_text =
      octet_text a
      ++ (b'.' ∷ (octet_text b ++ (b'.' ∷ (octet_text c ++ (b'.' ∷ (octet_text d ++ []))))))
