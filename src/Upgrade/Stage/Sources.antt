-- ===== src/Upgrade/Stage/Sources.antt =====
-- src/upgrade/mod.rs, `UpgradeCoordinator::stage`: where the inputs of a staging come from. The texts
-- and the tarball are fetched (Upgrade/Download), the bundle is verified (Upgrade/Verify), and the
-- tarball is installed (Upgrade/Apply).
use bilbycast_gateway_sdk.Base.{
  ℕ, String, append, Bool, true, false, if◌then◌else◌, Option, none, some, List, Result, ok, err,
  from_first,
}
use bilbycast_gateway_sdk.Json.{Json}
use bilbycast_gateway_sdk.Upgrade.State.{InstallState}
use bilbycast_gateway_sdk.Upgrade.Signers.{AllowedSigner}
use bilbycast_gateway_sdk.Upgrade.Manifest.{
  Manifest, ParsedUrl, Semver, pick_artefact, derive_release_base_url,
}
use bilbycast_gateway_sdk.Upgrade.Download.{
  Reply, TextBody, FileBody, FetchError, fetch_text, fetch_with_sha256,
}
use bilbycast_gateway_sdk.Upgrade.Archive.{Located}
use bilbycast_gateway_sdk.Upgrade.Apply.{Root, Found, Call, Extraction, stage_new_version}
use bilbycast_gateway_sdk.Upgrade.Verify.{
  Bytes, Crates, VerifyError, empty_allowlist, bundle_unparsable, cert_missing, signature_missing,
  identity_not_allowed, sigstore_failed, claims_unreadable, blob_unverified,
}
use bilbycast_gateway_sdk.Upgrade.Verify.Bundle.{verify_manifest_bundle}
use bilbycast_gateway_sdk.Upgrade.Stage.{
  UpgradeProfile, Request, StageMeets, Download, downloaded, checksum_mismatch, download_failed,
}

-- `str::contains`
abbrev pub contains_text : String → String → Bool
contains_text s t = elim (from_first t s) [ none ↦ false | some rest ↦ true ]

-- The text of the outermost context, which is all that `to_string` gives; `shown` is the identity.
unfoldable pub verify_error_text : String → VerifyError → String
verify_error_text shown empty_allowlist =
    "identity allowlist is empty — refusing to verify any signature"
verify_error_text shown bundle_unparsable = "failed to parse cosign Sigstore bundle JSON"
verify_error_text shown cert_missing = "bundle missing 'cert' (X.509 PEM)"
verify_error_text shown signature_missing = "bundle missing 'base64Signature'"
verify_error_text shown identity_not_allowed = append "Sigstore cert identity " (
    append shown
      " is not in the upgrade ALLOWED_SIGNERS allowlist — refusing to install (the binary may have been signed by an unauthorised workflow)")
verify_error_text shown (sigstore_failed e) = "Sigstore Fulcio + Rekor verification failed"
verify_error_text shown (claims_unreadable e) = "could not extract identity claims from Fulcio cert"
verify_error_text shown (blob_unverified e) =
    "manifest signature does not verify under the cert's pubkey"

-- The code of the error.
unfoldable pub map_verify_error : String → VerifyError → String
unfolding verify_error_text
map_verify_error shown e =
    let s = verify_error_text shown e in
    if contains_text s "identity"
    then "upgrade_identity_not_allowed"
    else if contains_text s "rekor"
    then "upgrade_rekor_invalid"
    else "upgrade_signature_invalid"

-- What a staging meets outside: the answers of the network, the states that it reads, what it finds under
-- the install root, how the calls of the file system and the unpacking of a tarball end, the path of a
-- version's directory, and how the write of the state ends.
pub record World : Type 0 where
  pub in_flight : Bool
  pub client_builds : Bool
  pub manifest_replies : ℕ → Reply TextBody
  pub bundle_replies : ℕ → Reply TextBody
  pub tarball_replies : ℕ → Reply FileBody
  pub installed : Option InstallState
  pub root : Root
  pub found : List Found
  pub fails : Call → Bool
  pub extraction : Bytes → Extraction
  pub located : Bytes → Located
  pub dir_of : String → String
  pub installed_later : Option InstallState
  pub saved : Bool
  pub now : ℕ

-- The library functions of the staging: `str::as_bytes`, `serde_json::from_slice`, the `Display` of a
-- fetch's error and the `{:?}` of an identity.
pub record Formats : Type 0 where
  pub from_utf8 : Bytes → Option String
  pub as_bytes : String → Bytes
  pub from_slice : Bytes → Option Manifest
  pub sha256_hex : Bytes → String
  pub fetch_error_text : FetchError → String
  pub shown : String

abbrev pub option_of : {E A : Type 0} → Result E A → Option A
option_of (ok a) = some a
option_of (err e) = none

-- The code for a download that failed.
abbrev pub failed_download : Bool → Download
failed_download is_checksum = if is_checksum then checksum_mismatch else download_failed

module _ (k : Crates) (j : Json) (fm : Formats) (parse_url : String → Option ParsedUrl) where
  -- A file of the release.
  unfoldable pub fetched :
      Bool → {E : Type 0} → Result E String → String → (ℕ → Reply TextBody) → Option String
  unfolding fetch_text
  fetched client_builds (err e) name replies = none
  fetched client_builds (ok base) name replies =
      option_of
        (fetch_text parse_url fm.from_utf8 fm.sha256_hex client_builds (append base name) replies).0

  abbrev pub with_code : Result VerifyError (Unit {0}) → Result String (Unit {0})
  with_code (ok u) = ok u
  with_code (err e) = err (map_verify_error fm.shown e)

  unfoldable pub verified_of :
      List AllowedSigner → Option String → Option String → Result String (Unit {0})
  unfolding verify_manifest_bundle
  verified_of signers (some manifest_text) (some bundle_text) =
      with_code
        (verify_manifest_bundle k j (fm.as_bytes manifest_text) (fm.as_bytes bundle_text) signers)
  verified_of signers (some manifest_text) none = err "upgrade_network_error"
  verified_of signers none bundle_text = err "upgrade_network_error"

  unfoldable pub manifest_of : Option String → Option Manifest
  manifest_of none = none
  manifest_of (some text) = fm.from_slice (fm.as_bytes text)

  unfoldable pub download_of : Result FetchError Bytes → Download
  download_of (ok bytes) = downloaded bytes
  download_of (err e) = failed_download (contains_text (fm.fetch_error_text e) "checksum")

  unfoldable pub tarball_of : Request → World → Option Manifest → Download
  unfolding fetch_with_sha256
  tarball_of r w none = download_failed
  tarball_of r w (some manifest) = elim (pick_artefact manifest r.arch r.variant) [
    | none ↦ download_failed
    | some a ↦
        download_of
          (fetch_with_sha256 parse_url fm.from_utf8 fm.sha256_hex w.client_builds a.url a.sha256
            w.tarball_replies).0
  ]

  -- The installation of the tarball (Upgrade/Apply).
  unfoldable pub install_dir_of : Request → World → Option Manifest → Bytes → Option String
  unfolding stage_new_version
  install_dir_of r w none bytes = none
  install_dir_of r w (some manifest) bytes =
      elim (stage_new_version w.fails r.version w.found manifest.version (w.extraction bytes)
        (w.located bytes) w.root).1 [ err e ↦ none | ok u ↦ some (w.dir_of r.version) ]

  abbrev pub stage_meets :
      Semver → UpgradeProfile → List AllowedSigner → Request → World → StageMeets
  stage_meets v profile signers r w =
      let base = derive_release_base_url v parse_url profile.repo r.version in
      let text = fetched w.client_builds base "/manifest.json" w.manifest_replies in
      let bundle = fetched w.client_builds base "/manifest.sig.bundle" w.bundle_replies in
      record {
        in_flight = w.in_flight;
        manifest_text = text;
        bundle_text = bundle;
        verified = verified_of signers text bundle;
        manifest = manifest_of text;
        installed = w.installed;
        tarball = tarball_of r w (manifest_of text);
        install_dir = install_dir_of r w (manifest_of text);
        installed_later = w.installed_later;
        saved = w.saved;
        now = w.now;
      }
