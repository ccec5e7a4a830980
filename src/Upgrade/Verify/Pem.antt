-- ===== src/Upgrade/Verify/Pem.antt =====
-- src/upgrade/verify.rs, `pem_to_der`, `try_pem_block` and `sha256_hex`: the encodings of a certificate,
-- and the spelling of a digest.
use bilbycast_gateway_sdk.Base.{
  ℕ, ◌/◌, ◌%◌, String, append, Option, none, some, List, [], ◌∷◌, get_elem?, strip_prefix,
  strip_suffix, trim, no_whitespace, Result, err, ok_or,
}
use bilbycast_gateway_sdk.Upgrade.Verify.{
  Bytes, Crates, CheckError, not_pem, pem_not_base64, not_utf8,
}

abbrev hex_digits : List String
hex_digits =
    "0" ∷ "1" ∷ "2" ∷ "3" ∷ "4" ∷ "5" ∷ "6" ∷ "7" ∷ "8" ∷ "9" ∷ "a" ∷ "b" ∷ "c" ∷ "d" ∷ "e" ∷ "f"
    ∷ []

abbrev hex_digit : ℕ → String
hex_digit n = elim (get_elem? hex_digits n) [ none ↦ "" | some s ↦ s ]

-- `{b:02x}` of each byte.
abbrev pub hex : Bytes → String
hex [] = ""
hex (b ∷ bs) = append (hex_digit (b / 16)) (append (hex_digit (b % 16)) (hex bs))

module _ (k : Crates) where
  open k use {base64_decode, from_utf8, sha256}

  unfoldable pub sha256_hex : Bytes → String
  sha256_hex data' = hex (sha256 data')

  -- The text between the two lines of a PEM block, where there are these lines.
  unfoldable pub pem_body : String → Option String
  pem_body s = elim (strip_prefix s "-----BEGIN CERTIFICATE-----") [
    | none ↦ none
    | some rest ↦ strip_suffix rest "-----END CERTIFICATE-----"
  ]

  -- `none` where the text is no PEM block, so that another encoding may be tried.
  unfoldable pub try_pem_block : String → Option (Result CheckError Bytes)
  try_pem_block s = elim (pem_body s) [
    | none ↦ none
    | some body ↦ some (ok_or (base64_decode (no_whitespace body)) pem_not_base64)
  ]

  -- A PEM block, or the base64 of one.
  unfoldable pub pem_to_der : String → Result CheckError Bytes
  pem_to_der cert_field = elim (try_pem_block (trim cert_field)) [
    | some der ↦ der
    | none ↦ elim (base64_decode (trim cert_field)) [
      | none ↦ err not_pem
      | some inner ↦ elim (from_utf8 inner) [
        | none ↦ err not_utf8
        | some text ↦ elim (try_pem_block (trim text)) [ some der ↦ der | none ↦ err not_pem ]
      ]
    ]
  ]
