-- ===== src/Upgrade/Verify.antt =====
-- src/upgrade/verify.rs: `verify_manifest_bundle` and the checks of `sigstore_inner`, over the crates
-- that decode and verify (base64, x509-cert, sigstore, sha2, serde), which are a parameter. Bytes are
-- numbers.
pub mod Pem
pub mod Claims
pub mod Bundle
use bilbycast_gateway_sdk.Base.{
  ℕ, String, Bool, true, false, Option, none, some, List, [], ◌∷◌, ltb, if◌then◌else◌, append, ◌||◌,
}

abbrev pub Bytes : Type 0
Bytes = List ℕ

-- `i64`
pub data ℤ : Type 0 where
  pos : ℕ → ℤ
  negsuc : ℕ → ℤ

pub data SigningScheme : Type 0 where
  ecdsa_p256_sha256_asn1 ecdsa_p384_sha384_asn1 : SigningScheme

pub record RekorPayload : Type 0 where
  pub body : String
  pub integrated_time : ℤ
  pub log_index : ℕ
  pub log_id : String

pub record RekorBundle : Type 0 where
  pub signed_entry_timestamp : String
  pub payload : RekorPayload

pub record CosignBundle : Type 0 where
  pub base64_signature : Option String
  pub cert : Option String
  pub rekor_bundle : Option RekorBundle

-- The Fulcio certificates and the Rekor keys of the trust root, where they load.
pub record TrustRoot : Type 0 where
  pub fulcio_certs : Option (List Bytes)
  pub rekor_keys : Option (List Bytes)

pub record Crates : Type 1 where
  pub base64_decode : String → Option Bytes
  pub from_utf8 : Bytes → Option String
  pub from_utf8_lossy : Bytes → String
  pub as_bytes : String → Bytes
  pub show_i64 : ℤ → String
  pub show_u64 : ℕ → String
  pub sha256 : Bytes → Bytes
  pub parse_bundle : Bytes → Option CosignBundle
  pub trust_root : Option TrustRoot
  pub Certificate : Type 0
  pub certificate_from_der : Bytes → Option Certificate
  pub tbs_der : Certificate → Option Bytes
  pub signature : Certificate → Option Bytes
  pub signature_oid : Certificate → String
  pub spki_der : Certificate → Option Bytes
  pub not_before : Certificate → ℕ
  pub not_after : Certificate → ℕ
  pub extensions : Certificate → List (String × Bytes)
  pub utf8_string : Bytes → Option String
  pub Key : Type 0
  pub key_from_der : Bytes → SigningScheme → Option Key
  pub verify_signature : Key → Bytes → Bytes → Bool

-- The failures, each with the checks that bail out on it.
pub data CheckError : Type 0 where
  trust_root_unavailable rekor_missing : CheckError
  not_pem pem_not_base64 not_utf8 : CheckError
  leaf_unparsable tbs_unencodable signature_unaligned : CheckError
  unsupported_oid : String → CheckError
  no_chain outside_validity : CheckError
  body_unreadable hash_missing hash_mismatch public_key_missing certificate_mismatch : CheckError
  timestamp_not_base64 timestamp_unverified : CheckError
  signature_not_base64 key_unloadable signature_mismatch : CheckError

pub data VerifyError : Type 0 where
  empty_allowlist bundle_unparsable cert_missing signature_missing identity_not_allowed :
      VerifyError
  sigstore_failed : CheckError → VerifyError
  claims_unreadable : CheckError → VerifyError
  blob_unverified : CheckError → VerifyError
