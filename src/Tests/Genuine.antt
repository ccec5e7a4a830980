-- ===== src/Tests/Genuine.antt =====
-- A staging from the network to the disk, at concrete values.
use bilbycast_gateway_sdk.Base.{
  append, String, refl, true, false, Option, none, some, [], ◌∷◌, ◌==◌, if◌then◌else◌, str_eq,
  eq_ignore_ascii_case, from_first, take_while, trim, strip_prefix, strip_suffix,
}
use bilbycast_gateway_sdk.Upgrade.Manifest.{
  check_version_window, derive_release_base_url, validate_url_host, check_artefact, check_artefacts,
  find_artefact, pick_artefact, validate_request,
}
use bilbycast_gateway_sdk.Upgrade.Download.{
  Bytes, answered, attempt_all, after_reply, read_text, fetch_text, fetch_with_sha256, read_file,
  read_chunks,
}
use bilbycast_gateway_sdk.Upgrade.Stage.Sources.{
  install_dir_of, stage_meets, World, Formats, fetched, verified_of, manifest_of, tarball_of,
  download_of,
}
use bilbycast_gateway_sdk.Upgrade.Stage.Genuine.{IsGenuine, stage-IsGenuine}
use bilbycast_gateway_sdk.Upgrade.Stage.{stage, after_admit, admit, after_obtain, obtain, install}
use bilbycast_gateway_sdk.Upgrade.Verify.Bundle.{
  verify_cert_and_rekor, any_verifies, ca_verifies, canonical, key_verifies, read_body,
  scheme_for_oid, str_at, verify_blob_signature, verify_cert_chain, verify_manifest_bundle,
  verify_rekor_body_binding, verify_rekor_set, verify_validity_window,
}
use bilbycast_gateway_sdk.Upgrade.Verify.Pem.{pem_to_der, try_pem_block, pem_body, sha256_hex}
use bilbycast_gateway_sdk.Json.{get_str}
use bilbycast_gateway_sdk.Upgrade.Signers.{
  identity_matches_allowlist, ref_matches, signer_matches, workflow_matches,
}
use bilbycast_gateway_sdk.Upgrade.Verify.Claims.{
  der_utf8, extract_identity_claims, first_san_uri, raw_utf8, read_claim, read_extensions, read_san,
  settle_claims,
}
use bilbycast_gateway_sdk.Upgrade.Archive.{at_top}
use bilbycast_gateway_sdk.Upgrade.Apply as Apply
use bilbycast_gateway_sdk.Upgrade.Apply.{
  stage_new_version, clear_partial, clear_final, unpack, prepare, publish, collect,
  swap_current_symlink, link_current, gc_versions, candidates, newest_first,
}
use bilbycast_gateway_sdk.Tests.Releases.{crates, library, signers}
use bilbycast_gateway_sdk.Tests.Staging.{parse_url, release, minors, profile, policy, request}

-- One byte stands for the text of the manifest, another for that of the bundle.
abbrev text_of : Bytes → Option String
text_of [] = none
text_of (b ∷ bytes) = some (if b == 1 then "manifest" else "bundle")

abbrev bytes_of : String → Bytes
bytes_of text = if str_eq text "manifest" then 1 ∷ 2 ∷ [] else []

abbrev formats : Formats
formats = record {
  from_utf8 = text_of;
  as_bytes = bytes_of;
  from_slice = λ bytes. some release;
  sha256_hex = λ bytes. "0123456789abcdef0123456789abcdef0123456789abcdef0123456789abcdef";
  fetch_error_text = λ e. "";
  shown = "";
}

abbrev world : World
world = record {
  in_flight = false;
  client_builds = true;
  manifest_replies = λ n. answered 200 (some (1 ∷ []));
  bundle_replies = λ n. answered 200 (some (2 ∷ []));
  tarball_replies =
      λ n. answered 200 (record { content_length = none; chunks = some (9 ∷ []) ∷ [] });
  installed = none;
  root = record {
    dirs = "1.1.0" ∷ [];
    current = some "1.1.0";
    previous = none;
    current_tmp = none;
  };
  found = [];
  fails = λ call. false;
  extraction = λ bytes. record { succeeds = true; touches = λ d. d };
  located = λ bytes. at_top;
  dir_of = append "/opt/bilbycast/gateway/versions/";
  installed_later = none;
  saved = true;
  now = 0;
}

stage-IsGenuine_example :
    IsGenuine crates library formats parse_url minors profile signers request world
      (stage minors parse_url profile policy "1.1.0" request
        (stage_meets crates library formats parse_url minors profile signers request world)).0
unfolding install_dir_of stage_new_version clear_partial clear_final unpack prepare publish collect
    swap_current_symlink link_current gc_versions candidates newest_first Apply.step stage
    after_admit admit check_version_window derive_release_base_url validate_url_host after_obtain
    obtain fetched attempt_all after_reply read_text verified_of verify_cert_and_rekor pem_to_der
    try_pem_block pem_body eq_ignore_ascii_case from_first take_while trim strip_prefix strip_suffix
    get_str fetch_text fetch_with_sha256 read_file read_chunks check_artefact check_artefacts
    find_artefact pick_artefact validate_request identity_matches_allowlist ref_matches
    signer_matches workflow_matches install any_verifies ca_verifies canonical key_verifies
    read_body scheme_for_oid str_at verify_blob_signature verify_cert_chain verify_manifest_bundle
    verify_rekor_body_binding verify_rekor_set verify_validity_window der_utf8
    extract_identity_claims first_san_uri raw_utf8 read_claim read_extensions read_san settle_claims
    sha256_hex manifest_of tarball_of download_of
stage-IsGenuine_example =
    stage-IsGenuine crates library formats parse_url minors profile signers policy "1.1.0" request
      world refl
