-- ===== src/Upgrade/Verify/Claims.antt =====
-- src/upgrade/verify.rs, `extract_identity_claims`: the workflow run that a certificate names.
use Prim.Native.Char.{code}
use bilbycast_gateway_sdk.Base.{
  ℕ, String, append, Bool, ◌&&◌, not, Option, none, some, List, [], ◌∷◌, str_eq, if◌then◌else◌, leb,
  ◌==◌, from_first, take_while, Result, ok, ◌>>=◌, ok_or,
}
use bilbycast_gateway_sdk.Upgrade.Signers.{CertIdentity}
use bilbycast_gateway_sdk.Upgrade.Verify.{Bytes, Crates, CheckError, leaf_unparsable}
use bilbycast_gateway_sdk.Upgrade.Verify.Pem.{pem_to_der}

abbrev pub oid_issuer : String
oid_issuer = "1.3.6.1.4.1.57264.1.8"

abbrev pub oid_issuer_v1 : String
oid_issuer_v1 = "1.3.6.1.4.1.57264.1.1"

abbrev pub oid_repo_uri : String
oid_repo_uri = "1.3.6.1.4.1.57264.1.12"

abbrev pub oid_repo_v1 : String
oid_repo_v1 = "1.3.6.1.4.1.57264.1.5"

abbrev pub oid_ref : String
oid_ref = "1.3.6.1.4.1.57264.1.14"

abbrev pub oid_ref_v1 : String
oid_ref_v1 = "1.3.6.1.4.1.57264.1.6"

abbrev pub oid_san : String
oid_san = "2.5.29.17"

-- The claims as they are read, with those of the deprecated extensions beside.
pub record ReadClaims : Type 0 where
  pub id : CertIdentity
  pub issuer_v1 : Option String
  pub repo_v1 : Option String
  pub ref_v1 : Option String

abbrev nothing_read : ReadClaims
nothing_read = record {
  id = record { issuer = none; repo = none; workflow_uri = none; ref_claim = none };
  issuer_v1 = none;
  repo_v1 = none;
  ref_v1 = none;
}

-- `.filter(|s| !s.is_empty())`
abbrev pub not_empty : Option String → Option String
not_empty none = none
not_empty (some s) = if str_eq s "" then none else some s

abbrev pub or : Option String → Option String → Option String
or none o = o
or (some s) o = some s

-- `char::is_ascii_graphic`, but for `"`
abbrev in_uri : ℕ → Bool
in_uri c = leb 33 c && leb c 126 && not (c == 34)

module _ (k : Crates) where
  open k use {from_utf8, from_utf8_lossy, utf8_string, certificate_from_der, extensions}

  unfoldable pub der_utf8 : Bytes → Option String
  der_utf8 bytes = not_empty (utf8_string bytes)

  unfoldable pub raw_utf8 : Bytes → Option String
  raw_utf8 bytes = not_empty (from_utf8 bytes)

  unfoldable pub first_san_uri : Bytes → Option String
  first_san_uri bytes = elim (from_first "https://" (from_utf8_lossy bytes)) [
    | none ↦ none
    | some rest ↦ some (take_while (λ c. in_uri (code c)) rest)
  ]

  unfoldable pub read_claim : ReadClaims → String → Bytes → ReadClaims
  read_claim c oid bytes =
      if str_eq oid oid_issuer
      then record c { id = record c.id { issuer = der_utf8 bytes } }
      else if str_eq oid oid_issuer_v1
      then record c { issuer_v1 = raw_utf8 bytes }
      else if str_eq oid oid_repo_uri
      then record c { id = record c.id { repo = der_utf8 bytes } }
      else if str_eq oid oid_repo_v1
      then record c { repo_v1 = raw_utf8 bytes }
      else if str_eq oid oid_ref
      then record c { id = record c.id { ref_claim = der_utf8 bytes } }
      else if str_eq oid oid_ref_v1
      then record c { ref_v1 = raw_utf8 bytes }
      else c

  unfoldable pub read_san : ReadClaims → String → Bytes → ReadClaims
  read_san c oid bytes =
      if str_eq oid oid_san
      then record c {
        id = record c.id { workflow_uri = or (first_san_uri bytes) c.id.workflow_uri };
      }
      else c

  unfoldable pub read_extensions : ReadClaims → List (String × Bytes) → ReadClaims
  read_extensions c [] = c
  read_extensions c ((oid, bytes) ∷ es) =
      read_extensions (read_san (read_claim c oid bytes) oid bytes) es

  -- The current claims, and the deprecated ones where those are missing.
  unfoldable pub settle_claims : ReadClaims → CertIdentity
  settle_claims c = record c.id {
    issuer = or c.id.issuer c.issuer_v1;
    repo =
        or c.id.repo
          (elim c.repo_v1 [ none ↦ none | some r ↦ some (append "https://github.com/" r) ]);
    ref_claim = or c.id.ref_claim c.ref_v1;
  }

  unfoldable pub extract_identity_claims : String → Result CheckError CertIdentity
  extract_identity_claims cert_pem = do
    der ← pem_to_der k cert_pem
    cert ← ok_or (certificate_from_der der) leaf_unparsable
    ok (settle_claims (read_extensions nothing_read (extensions cert)))
