-- ===== src/Upgrade/Verify/Bundle.antt =====
-- src/upgrade/verify.rs, `verify_manifest_bundle` and the checks that it makes, in their order.
pub mod Checked
pub mod Verified
use bilbycast_gateway_sdk.Base.{
  ℕ, String, append, Bool, true, false, ◌&&◌, ◌||◌, not, Option, none, some, List, [], ◌∷◌, str_eq,
  if◌then◌else◌, ltb, ◌==◌, Result, ok, err, ◌>>=◌, ◌>>◌, ok_or, refuse_if, eq_ignore_ascii_case,
}
use bilbycast_gateway_sdk.Json.{Json, get_str}
use bilbycast_gateway_sdk.Upgrade.Signers.{AllowedSigner, CertIdentity, identity_matches_allowlist}
use bilbycast_gateway_sdk.Upgrade.Verify.{
  Bytes, ℤ, pos, negsuc, SigningScheme, ecdsa_p256_sha256_asn1, ecdsa_p384_sha384_asn1,
  RekorPayload, RekorBundle, CosignBundle, TrustRoot, Crates, CheckError, trust_root_unavailable,
  rekor_missing, leaf_unparsable, tbs_unencodable, signature_unaligned, unsupported_oid, no_chain,
  outside_validity, body_unreadable, hash_missing, hash_mismatch, public_key_missing,
  certificate_mismatch, timestamp_not_base64, timestamp_unverified, signature_not_base64,
  key_unloadable, signature_mismatch, VerifyError, empty_allowlist, bundle_unparsable, cert_missing,
  signature_missing, identity_not_allowed, sigstore_failed, claims_unreadable, blob_unverified,
}
use bilbycast_gateway_sdk.Upgrade.Verify.Pem.{pem_to_der, sha256_hex}
use bilbycast_gateway_sdk.Upgrade.Verify.Claims.{extract_identity_claims}

-- `.context(..)`: the error that is seen first.
abbrev pub context {ℓ} :
    {A : Type ℓ} → (CheckError → VerifyError) → Result CheckError A → Result VerifyError A
context f (ok a) = ok a
context f (err e) = err (f e)

unfoldable pub scheme_for_oid : String → Result CheckError SigningScheme
scheme_for_oid oid =
    if str_eq oid "1.2.840.10045.4.3.2"
    then ok ecdsa_p256_sha256_asn1
    else if str_eq oid "1.2.840.10045.4.3.3"
    then ok ecdsa_p384_sha384_asn1
    else err (unsupported_oid oid)

-- `integrated_time < nb`, and `integrated_time > na`.
abbrev pub is_before : ℤ → ℕ → Bool
is_before (pos t) nb = ltb t nb
is_before (negsuc t) nb = true

abbrev pub is_after : ℤ → ℕ → Bool
is_after (pos t) na = ltb na t
is_after (negsuc t) na = false

abbrev pub bytes_eq : Bytes → Bytes → Bool
bytes_eq [] [] = true
bytes_eq [] (b ∷ bs) = false
bytes_eq (a ∷ as') [] = false
bytes_eq (a ∷ as') (b ∷ bs) = let rest = bytes_eq as' bs in a == b && rest

abbrev pub is_empty {ℓ} : {A : Type ℓ} → List A → Bool
is_empty [] = true
is_empty (a ∷ as') = false

module _ (k : Crates) where
  open k use {
    base64_decode, from_utf8, as_bytes, show_i64, show_u64, parse_bundle, trust_root, Certificate,
    certificate_from_der, tbs_der, signature, signature_oid, spki_der, not_before, not_after,
    key_from_der, verify_signature,
  }

  -- Whether the key of a DER subject public key verifies `sig` over `message`.
  unfoldable pub key_verifies : SigningScheme → Bytes → Bytes → Bytes → Bool
  key_verifies scheme sig message spki = elim (key_from_der spki scheme) [
    | none ↦ false
    | some key ↦ verify_signature key sig message
  ]

  unfoldable pub ca_verifies : SigningScheme → Bytes → Bytes → Bytes → Bool
  ca_verifies scheme sig tbs ca_der = elim (certificate_from_der ca_der) [
    | none ↦ false
    | some ca ↦ elim (spki_der ca) [ none ↦ false | some spki ↦ key_verifies scheme sig tbs spki ]
  ]

  -- The first of the certificates (of the keys) that verifies ends the loop.
  unfoldable pub any_verifies : (Bytes → Bool) → List Bytes → Bool
  any_verifies verifies [] = false
  any_verifies verifies (der ∷ ders) = let rest = any_verifies verifies ders in verifies der || rest

  unfoldable pub verify_cert_chain : Bytes → List Bytes → Result CheckError (Unit {0})
  verify_cert_chain leaf_der fulcio_certs = do
    leaf ← ok_or (certificate_from_der leaf_der) leaf_unparsable
    tbs ← ok_or (tbs_der leaf) tbs_unencodable
    sig ← ok_or (signature leaf) signature_unaligned
    scheme ← scheme_for_oid (signature_oid leaf)
    refuse_if (not (any_verifies (ca_verifies scheme sig tbs) fulcio_certs)) no_chain

  unfoldable pub verify_validity_window : Bytes → ℤ → Result CheckError (Unit {0})
  verify_validity_window leaf_der integrated_time = do
    leaf ← ok_or (certificate_from_der leaf_der) leaf_unparsable
    refuse_if
        (is_before integrated_time (not_before leaf) || is_after integrated_time (not_after leaf))
        outside_validity

  -- The bytes that Rekor signs.
  unfoldable pub canonical : RekorPayload → Bytes
  canonical p =
      let index = append (show_u64 p.log_index) "}" in
      let id = append p.log_id (append "\",\"logIndex\":" index) in
      let time = append (show_i64 p.integrated_time) (append ",\"logID\":\"" id) in
      as_bytes (append "{\"body\":\"" (append p.body (append "\",\"integratedTime\":" time)))

  unfoldable pub verify_rekor_set : RekorBundle → List Bytes → Result CheckError (Unit {0})
  verify_rekor_set rekor rekor_keys = do
    set_sig ← ok_or (base64_decode rekor.signed_entry_timestamp) timestamp_not_base64
    let verifies = key_verifies ecdsa_p256_sha256_asn1 set_sig (canonical rekor.payload)
    refuse_if (not (any_verifies verifies rekor_keys)) timestamp_unverified

  unfoldable pub verify_blob_signature : String → String → Bytes → Result CheckError (Unit {0})
  verify_blob_signature cert_pem signature_b64 blob = do
    sig ← ok_or (base64_decode signature_b64) signature_not_base64
    cert_der ← pem_to_der k cert_pem
    cert ← ok_or (certificate_from_der cert_der) leaf_unparsable
    spki ← ok_or (spki_der cert) key_unloadable
    key ← ok_or (key_from_der spki ecdsa_p256_sha256_asn1) key_unloadable
    refuse_if (not (verify_signature key sig blob)) signature_mismatch

module _ (k : Crates) (j : Json) where
  open k use {base64_decode, from_utf8, trust_root, parse_bundle}
  open j use {Value, get, from_str}

  -- `Value::pointer` of the keys, then `as_str`.
  unfoldable pub str_at : Value → List String → String → Option String
  str_at v [] last = get_str j v last
  str_at v (key ∷ keys) last = elim (get v key) [ none ↦ none | some w ↦ str_at w keys last ]

  unfoldable pub read_body : String → Result CheckError Value
  read_body body_b64 = do
    bytes ← ok_or (base64_decode body_b64) body_unreadable
    text ← ok_or (from_utf8 bytes) body_unreadable
    ok_or (from_str text) body_unreadable

  unfoldable pub verify_rekor_body_binding : String → Bytes → Bytes → Result CheckError (Unit {0})
  verify_rekor_body_binding body_b64 manifest_bytes leaf_der = do
    body ← read_body body_b64
    entry_hash ← ok_or (str_at body ("spec" ∷ "data" ∷ "hash" ∷ []) "value") hash_missing
    refuse_if (not (eq_ignore_ascii_case entry_hash (sha256_hex k manifest_bytes))) hash_mismatch
    pk_b64 ←
        ok_or (str_at body ("spec" ∷ "signature" ∷ "publicKey" ∷ []) "content") public_key_missing
    pk_bytes ← ok_or (base64_decode pk_b64) public_key_missing
    pk_pem ← ok_or (from_utf8 pk_bytes) public_key_missing
    entry_cert_der ← pem_to_der k pk_pem
    refuse_if (not (bytes_eq entry_cert_der leaf_der)) certificate_mismatch

  unfoldable pub verify_cert_and_rekor :
      String → Bytes → Option RekorBundle → Result CheckError (Unit {0})
  verify_cert_and_rekor cert_pem manifest_bytes rekor_bundle = do
    root ← ok_or trust_root trust_root_unavailable
    fulcio_certs ← ok_or root.fulcio_certs trust_root_unavailable
    rekor_keys ← ok_or root.rekor_keys trust_root_unavailable
    rekor ← ok_or rekor_bundle rekor_missing
    leaf_der ← pem_to_der k cert_pem
    verify_cert_chain k leaf_der fulcio_certs
    verify_validity_window k leaf_der rekor.payload.integrated_time
    verify_rekor_body_binding rekor.payload.body manifest_bytes leaf_der
    verify_rekor_set k rekor rekor_keys

  unfoldable pub verify_manifest_bundle :
      Bytes → Bytes → List AllowedSigner → Result VerifyError (Unit {0})
  verify_manifest_bundle manifest_bytes bundle_bytes allowed_signers = do
    refuse_if (is_empty allowed_signers) empty_allowlist
    bundle ← ok_or (parse_bundle bundle_bytes) bundle_unparsable
    cert_pem ← ok_or bundle.cert cert_missing
    signature_b64 ← ok_or bundle.base64_signature signature_missing
    context sigstore_failed (verify_cert_and_rekor cert_pem manifest_bytes bundle.rekor_bundle)
    identity ← context claims_unreadable (extract_identity_claims k cert_pem)
    refuse_if (not (identity_matches_allowlist identity allowed_signers)) identity_not_allowed
    context blob_unverified (verify_blob_signature k cert_pem signature_b64 manifest_bytes)
