-- ===== src/Upgrade/Stage/Genuine.antt =====
-- src/upgrade/mod.rs, `UpgradeCoordinator::stage` with src/upgrade/download.rs and
-- src/upgrade/verify.rs: where the tarball that is extracted comes from.
use bilbycast_gateway_sdk.Base.{
  ℕ, append, arith, [], ◌∷◌, ◌<◌, ◌≤◌, ◌≢◌, ◌≡◌, refl, subst, ◌⊎◌, String, Bool, true, false,
  Option, none, some, List, length, Result, ok, err, err≢ok, eq_ignore_ascii_case,
}
use bilbycast_gateway_sdk.Json.{Json}
use bilbycast_gateway_sdk.Upgrade.{UpgradeConfig}
use bilbycast_gateway_sdk.Upgrade.State.{InstallState}
use bilbycast_gateway_sdk.Upgrade.Signers.{AllowedSigner}
use bilbycast_gateway_sdk.Upgrade.Manifest.{
  Manifest, ManifestArtefact, ManifestError, ParsedUrl, Semver, pick_artefact,
  derive_release_base_url,
}
use bilbycast_gateway_sdk.Upgrade.Manifest.Checks.{AnswersRequest}
use bilbycast_gateway_sdk.Upgrade.Download.{
  FetchError, Reply, TextBody, fetch_text, fetch_with_sha256,
}
use bilbycast_gateway_sdk.Upgrade.Download.Integrity.{fetch_with_sha256-Fetched}
use bilbycast_gateway_sdk.Upgrade.Verify.{Bytes, Crates, VerifyError}
use bilbycast_gateway_sdk.Upgrade.Verify.Bundle.{verify_manifest_bundle}
use bilbycast_gateway_sdk.Upgrade.Verify.Bundle.Verified.{
  IsVerified, verify_manifest_bundle-IsVerified,
}
use bilbycast_gateway_sdk.Upgrade.Stage.{
  UpgradeProfile, Request, StageMeets, StageEffect, started, downloaded_event, staged_event,
  extracts, writes, downloaded, stage,
}
use bilbycast_gateway_sdk.Upgrade.Stage.Installs.{
  Ends, manual, not_installed, not_written, staged, stage-installs,
}
use bilbycast_gateway_sdk.Upgrade.Stage.Guards.{puts_on_disk, stage-Accepted}
use bilbycast_gateway_sdk.Upgrade.Stage.Sources.{
  World, Formats, option_of, fetched, with_code, verified_of, manifest_of, download_of, tarball_of,
  stage_meets, contains_text, failed_download,
}

failed_download≢downloaded : (bytes : Bytes) (b : Bool) → failed_download b ≢ downloaded bytes
failed_download≢downloaded bytes true h = cc
failed_download≢downloaded bytes false h = cc

-- The tarballs that are extracted.
abbrev pub extracted : List StageEffect → List Bytes
extracted [] = []
extracted (extracts bytes ∷ es) = bytes ∷ extracted es
extracted (writes s ∷ es) = extracted es
extracted (started ∷ es) = extracted es
extracted (downloaded_event ∷ es) = extracted es
extracted (staged_event ∷ es) = extracted es

Ends-extracted :
    (cfg : UpgradeConfig) (current_version : String) (r : Request) (m : StageMeets)
    (manifest : Manifest) (tarball : Bytes) (out : List StageEffect × Result String String)
    → Ends cfg current_version r m manifest tarball out
    → cfg.manual_only ≡ false
    → extracted out.0 ≡ tarball ∷ []
Ends-extracted cfg current_version r m manifest tarball out (manual auto) h =
    absurd (ground (arith, auto, h))
Ends-extracted cfg current_version r m manifest tarball out (not_installed auto e) h = refl
Ends-extracted cfg current_version r m manifest tarball out (not_written dir auto e f) h = refl
Ends-extracted cfg current_version r m manifest tarball out (staged dir auto e f) h = refl

module _ (k : Crates) (j : Json) (fm : Formats) (parse_url : String → Option ParsedUrl) where
  -- The manifest that is followed was fetched with its bundle from the release and is the one that was
  -- signed; and the one tarball that is extracted is the one fetched from where that manifest says.
  pub record IsGenuine (v : Semver) (profile : UpgradeProfile) (signers : List AllowedSigner)
      (r : Request) (w : World) (effects : List StageEffect) : Type 0 where
    pub base : String
    pub is_base : derive_release_base_url v parse_url profile.repo r.version ≡ ok base
    pub manifest_text : String
    pub manifest_fetched :
        (fetch_text parse_url fm.from_utf8 fm.sha256_hex w.client_builds
          (append base "/manifest.json")
          w.manifest_replies).0
        ≡ ok manifest_text
    pub bundle_text : String
    pub bundle_fetched :
        (fetch_text parse_url fm.from_utf8 fm.sha256_hex w.client_builds
          (append base "/manifest.sig.bundle")
          w.bundle_replies).0
        ≡ ok bundle_text
    pub is_verified : IsVerified k j (fm.as_bytes manifest_text) (fm.as_bytes bundle_text) signers
    pub manifest : Manifest
    pub is_manifest : fm.from_slice (fm.as_bytes manifest_text) ≡ some manifest
    pub answers : AnswersRequest parse_url manifest r.version r.channel profile.device_type
    pub newer :
        (w.installed ≡ none)
        ⊎ ((s : InstallState) × (w.installed ≡ some s) × (s.last_sequence < manifest.sequence))
    pub artefact : ManifestArtefact
    pub is_artefact : pick_artefact manifest r.arch r.variant ≡ some artefact
    pub tarball : Bytes
    pub tarball_fetched :
        (fetch_with_sha256 parse_url fm.from_utf8 fm.sha256_hex w.client_builds artefact.url
          artefact.sha256 w.tarball_replies).0
        ≡ ok tarball
    pub is_tarball : eq_ignore_ascii_case (fm.sha256_hex tarball) artefact.sha256 ≡ true
    pub fits : length tarball ≤ 536870912
    pub extracts_it : extracted effects ≡ tarball ∷ []

  option_of-some : {E A : Type 0} (o : Result E A) (a : A) → option_of o ≡ some a → o ≡ ok a
  option_of-some (ok b) a h = cc
  option_of-some (err e) a h = cc

  fetched-some :
      (client_builds : Bool) (base name t : String) (replies : ℕ → Reply TextBody)
      → fetched k j fm parse_url client_builds {E = ManifestError} (ok base) name replies ≡ some t
      → (fetch_text parse_url fm.from_utf8 fm.sha256_hex client_builds (append base name) replies).0
        ≡ ok t
  unfolding fetched
  fetched-some client_builds base name t replies h = option_of-some _ t h

  with_code-ok :
      (o : Result VerifyError (Unit {0})) → with_code k j fm parse_url o ≡ ok tt → o ≡ ok tt
  with_code-ok (ok u) h = refl
  with_code-ok (err e) h = absurd (err≢ok h)

  verified_of-ok :
      (signers : List AllowedSigner) (t b : String)
      → verified_of k j fm parse_url signers (some t) (some b) ≡ ok tt
      → IsVerified k j (fm.as_bytes t) (fm.as_bytes b) signers
  unfolding verified_of
  verified_of-ok signers t b h =
      verify_manifest_bundle-IsVerified k j (fm.as_bytes t) (fm.as_bytes b) signers
        (with_code-ok (verify_manifest_bundle k j (fm.as_bytes t) (fm.as_bytes b) signers) h)

  download_of-downloaded :
      (o : Result FetchError Bytes) (bytes : Bytes)
      → download_of k j fm parse_url o ≡ downloaded bytes
      → o ≡ ok bytes
  unfolding download_of
  download_of-downloaded (ok b) bytes h = cc
  download_of-downloaded (err e) bytes h =
      absurd (failed_download≢downloaded bytes (contains_text (fm.fetch_error_text e) "checksum") h)

  tarball_of-downloaded :
      (r : Request) (w : World) (manifest : Manifest) (a : ManifestArtefact) (bytes : Bytes)
      → pick_artefact manifest r.arch r.variant ≡ some a
      → tarball_of k j fm parse_url r w (some manifest) ≡ downloaded bytes
      → (fetch_with_sha256 parse_url fm.from_utf8 fm.sha256_hex w.client_builds a.url a.sha256
          w.tarball_replies).0
        ≡ ok bytes
  unfolding tarball_of
  tarball_of-downloaded r w manifest a bytes p h =
      download_of-downloaded _ bytes (simp (p, tarball_of) at h)

  -- A request to stage a version puts something on the disk only if the manifest that it follows and its
  -- bundle were fetched from the release of that version and verified for one of the allowed signers,
  -- and the manifest answers the request and has a higher sequence number than the installed state. Then
  -- it extracts exactly one tarball: the one fetched from the URL of that manifest's artefact for the
  -- architecture and the variant, with the SHA-256 that the artefact names, of at most 512 MiB.
  pub stage-IsGenuine :
      (v : Semver) (profile : UpgradeProfile) (signers : List AllowedSigner) (cfg : UpgradeConfig)
      (current_version : String) (r : Request) (w : World)
      → puts_on_disk
          (stage v parse_url profile cfg current_version r
            (stage_meets k j fm parse_url v profile signers r w)).0
        ≡ true
      → IsGenuine v profile signers r w
          (stage v parse_url profile cfg current_version r
            (stage_meets k j fm parse_url v profile signers r w)).0
  stage-IsGenuine v profile signers cfg current_version r w h =
      let m = stage_meets k j fm parse_url v profile signers r w in
      let (a, (manifest, o, automatic)) =
        stage-Accepted v parse_url profile cfg current_version r m h in
      let is_manifest : manifest_of k j fm parse_url (some o.manifest_text) ≡ some manifest =
        subst (λ t. manifest_of k j fm parse_url t ≡ some manifest) o.manifest_fetched o.parses in
      let tarball_fetched = tarball_of-downloaded r w manifest o.artefact o.tarball o.picked (
        subst (λ t. tarball_of k j fm parse_url r w t ≡ downloaded o.tarball) o.parses o.checked) in
      let (host, long, digits, digest, fits, answer) =
        fetch_with_sha256-Fetched parse_url fm.from_utf8 fm.sha256_hex w.client_builds
          o.artefact.url o.artefact.sha256 w.tarball_replies o.tarball tarball_fetched in
      record {
        base = a.base_url;
        is_base = a.url_allowed;
        manifest_text = o.manifest_text;
        manifest_fetched =
            fetched-some w.client_builds a.base_url "/manifest.json" o.manifest_text
              w.manifest_replies
              (subst
                (λ b.
                  fetched k j fm parse_url w.client_builds b "/manifest.json" w.manifest_replies
                  ≡ some o.manifest_text)
                a.url_allowed o.manifest_fetched);
        bundle_text = o.bundle_text;
        bundle_fetched =
            fetched-some w.client_builds a.base_url "/manifest.sig.bundle" o.bundle_text
              w.bundle_replies
              (subst
                (λ b.
                  fetched k j fm parse_url w.client_builds b "/manifest.sig.bundle" w.bundle_replies
                  ≡ some o.bundle_text)
                a.url_allowed o.bundle_fetched);
        is_verified = verified_of-ok signers o.manifest_text o.bundle_text (
            subst (λ t. verified_of k j fm parse_url signers t (some o.bundle_text) ≡ ok tt)
              o.manifest_fetched
              (subst (λ b. verified_of k j fm parse_url signers m.manifest_text b ≡ ok tt)
                o.bundle_fetched o.verified));
        manifest = manifest;
        is_manifest = unfold manifest_of in is_manifest;
        answers = o.answers;
        newer = o.newer;
        artefact = o.artefact;
        is_artefact = o.picked;
        tarball = o.tarball;
        tarball_fetched = tarball_fetched;
        is_tarball = digest;
        fits = fits;
        extracts_it =
            Ends-extracted cfg current_version r m manifest o.tarball _
              (stage-installs v parse_url profile cfg current_version r m manifest a o) automatic;
      }
