-- ===== src/Tests/Releases.antt =====
-- A signed release at concrete values: crates that know one certificate, one bundle and a few codes.
use bilbycast_gateway_sdk.Base.{
  ℕ, ◌≡◌, refl, String, true, Option, none, some, List, [], ◌∷◌, ◌==◌, if◌then◌else◌, str_eq, ok,
  eq_ignore_ascii_case, trim, from_first, take_while, strip_prefix, strip_suffix,
}
use bilbycast_gateway_sdk.Json.{Json, get_str}
use bilbycast_gateway_sdk.Upgrade.Signers.{
  AllowedSigner, identity_matches_allowlist, signer_matches, workflow_matches, ref_matches,
}
use bilbycast_gateway_sdk.Upgrade.Verify.{Bytes, pos, CosignBundle, Crates}
use bilbycast_gateway_sdk.Upgrade.Verify.Pem.{sha256_hex, pem_body, try_pem_block, pem_to_der}
use bilbycast_gateway_sdk.Upgrade.Verify.Claims.{
  der_utf8, raw_utf8, first_san_uri, read_claim, read_san, read_extensions, settle_claims,
  extract_identity_claims,
}
use bilbycast_gateway_sdk.Upgrade.Verify.Bundle.{
  verify_manifest_bundle, scheme_for_oid, key_verifies, ca_verifies, any_verifies,
  verify_cert_chain, verify_validity_window, canonical, verify_rekor_set, verify_blob_signature,
  str_at, read_body, verify_rekor_body_binding, verify_cert_and_rekor,
}
use bilbycast_gateway_sdk.Upgrade.Verify.Bundle.Verified.{
  IsVerified, verify_manifest_bundle-IsVerified,
}
use bilbycast_gateway_sdk.Tests.SampleJson.{Value, object, string, field, end, sample_json}

abbrev pem : String
pem = "-----BEGIN CERTIFICATE-----der-----END CERTIFICATE-----"

abbrev of_code : List (ℕ × String) → Bytes → Option String
of_code [] bytes = none
of_code ((n, s) ∷ known) [] = none
of_code ((n, s) ∷ known) (b ∷ bytes) =
    let rest = of_code known (b ∷ bytes) in if n == b then some s else rest

abbrev to_code : List (ℕ × String) → String → Option Bytes
to_code [] text = none
to_code ((n, s) ∷ known) text =
    let rest = to_code known text in if str_eq s text then some (n ∷ []) else rest

abbrev texts : List (ℕ × String)
texts =
    (1, "body")
    ∷ (2, pem)
    ∷ (5, "https://token.actions.githubusercontent.com")
    ∷ (6, "acme/gateway")
    ∷ (7, "refs/tags/v1")
    ∷ (8, "https://github.com/acme/gateway/release.yml@refs/tags/v1")
    ∷ []

abbrev codes : List (ℕ × String)
codes = (1, "body64") ∷ (2, "pem64") ∷ (3, "timestamp64") ∷ (4, "signature64") ∷ (9, "der") ∷ []

abbrev bundle : CosignBundle
bundle = record {
  base64_signature = some "signature64";
  cert = some pem;
  rekor_bundle = some (record {
    signed_entry_timestamp = "timestamp64";
    payload = record { body = "body64"; integrated_time = pos 15; log_index = 0; log_id = "log" };
  });
}

abbrev pub crates : Crates
crates = record {
  base64_decode = to_code codes;
  from_utf8 = of_code texts;
  from_utf8_lossy = λ bytes. "https://github.com/acme/gateway/release.yml@refs/tags/v1";
  as_bytes = λ s. [];
  show_i64 = λ t. "15";
  show_u64 = λ n. "0";
  sha256 = λ bytes. 171 ∷ [];
  parse_bundle = λ bytes. some bundle;
  trust_root =
      some (record { fulcio_certs = some ((9 ∷ []) ∷ []); rekor_keys = some ((3 ∷ []) ∷ []) });
  Certificate = ℕ;
  certificate_from_der = λ der. some 0;
  tbs_der = λ c. some [];
  signature = λ c. some [];
  signature_oid = λ c. "1.2.840.10045.4.3.3";
  spki_der = λ c. some [];
  not_before = λ c. 10;
  not_after = λ c. 20;
  extensions = λ c.
      ("1.3.6.1.4.1.57264.1.8", 5 ∷ [])
      ∷ ("1.3.6.1.4.1.57264.1.5", 6 ∷ [])
      ∷ ("1.3.6.1.4.1.57264.1.14", 7 ∷ [])
      ∷ ("2.5.29.17", 8 ∷ [])
      ∷ [];
  utf8_string = of_code texts;
  Key = ℕ;
  key_from_der = λ der scheme. some 0;
  verify_signature = λ key sig message. true;
}

abbrev entry : Value
entry = object (
    field "spec"
      (object (
        field "data" (object (field "hash" (object (field "value" (string "AB") end)) end)) (
          field "signature"
            (object (field "publicKey" (object (field "content" (string "pem64") end)) end)) end)))
      end)

abbrev pub library : Json
library = sample_json (("body", entry) ∷ [])

abbrev pub signers : List AllowedSigner
signers =
    record {
      issuer = "https://token.actions.githubusercontent.com";
      repo = "https://github.com/acme/gateway";
      ref_pattern = "refs/tags/*";
      workflow = "https://github.com/acme/gateway/release.yml";
    }
    ∷ []

accepted_bundle : verify_manifest_bundle crates library (1 ∷ 2 ∷ []) [] signers ≡ ok tt
unfolding verify_manifest_bundle scheme_for_oid key_verifies ca_verifies any_verifies
    verify_cert_chain verify_validity_window canonical verify_rekor_set verify_blob_signature str_at
    read_body verify_rekor_body_binding verify_cert_and_rekor der_utf8 raw_utf8 first_san_uri
    read_claim read_san read_extensions settle_claims extract_identity_claims sha256_hex pem_body
    try_pem_block pem_to_der identity_matches_allowlist signer_matches workflow_matches ref_matches
    eq_ignore_ascii_case trim from_first take_while strip_prefix strip_suffix get_str
accepted_bundle = refl

verify_manifest_bundle-IsVerified_example : IsVerified crates library (1 ∷ 2 ∷ []) [] signers
verify_manifest_bundle-IsVerified_example =
    verify_manifest_bundle-IsVerified crates library (1 ∷ 2 ∷ []) [] signers accepted_bundle
