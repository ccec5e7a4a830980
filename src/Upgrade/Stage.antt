-- ===== src/Upgrade/Stage.antt =====
-- src/upgrade/mod.rs, `UpgradeCoordinator::stage`: from a request to the state of the new version. What
-- the staging meets is its input: the fetches, the answer of the verification of the signature, the
-- two reads of the state, the extraction and the write.
pub mod Guards
pub mod Installs
pub mod Sources
pub mod Genuine
use bilbycast_gateway_sdk.Base.{
  ℕ, String, Bool, true, false, not, ◌&&◌, Option, none, some, List, [], ◌∷◌, ◌++◌, leb,
  if◌then◌else◌, Result, ok, err, ◌>>=◌, ◌>>◌, refuse_if, ok_or,
}
use bilbycast_gateway_sdk.Upgrade.{UpgradeConfig}
use bilbycast_gateway_sdk.Upgrade.State.{InstallState, pending_health}
use bilbycast_gateway_sdk.Upgrade.Download.{Bytes}
use bilbycast_gateway_sdk.Upgrade.Manifest.{
  Manifest, ManifestArtefact, ManifestError, ParsedUrl, Semver, any_is, pick_artefact,
  validate_request, check_version_window, derive_release_base_url,
}

pub record UpgradeProfile : Type 0 where
  pub repo : String
  pub binary_name : String
  pub device_type : String

-- The version and the channel asked for, with the architecture and the variant to install.
pub record Request : Type 0 where
  pub version : String
  pub channel : String
  pub arch : String
  pub variant : String

pub data Download : Type 0 where
  downloaded : Bytes → Download
  checksum_mismatch download_failed : Download

pub record StageMeets : Type 0 where
  pub in_flight : Bool
  pub manifest_text : Option String
  pub bundle_text : Option String
  pub verified : Result String (Unit {0})
  pub manifest : Option Manifest
  pub installed : Option InstallState
  pub tarball : Download
  -- The directory of the new version, if the installation of these bytes succeeds.
  pub install_dir : Bytes → Option String
  pub installed_later : Option InstallState
  pub saved : Bool
  pub now : ℕ

-- The texts of `error_codes`.
abbrev pub map_error : {E A : Type 0} → Result E A → String → Result String A
map_error (ok a) code = ok a
map_error (err e) code = err code

abbrev pub is_newer : Manifest → Option InstallState → Bool
is_newer m none = true
is_newer m (some s) = not (leb m.sequence s.last_sequence)

abbrev pub download_error : Download → Result String Bytes
download_error (downloaded bytes) = ok bytes
download_error checksum_mismatch = err "upgrade_checksum_mismatch"
download_error download_failed = err "upgrade_network_error"

module _ (v : Semver) (parse_url : String → Option ParsedUrl) where
  -- Up to the event `upgrade_started`.
  unfoldable pub admit :
      UpgradeProfile → UpgradeConfig → String → Request → StageMeets → Result String (Unit {0})
  admit profile cfg current_version r m = do
    refuse_if m.in_flight "upgrade_in_progress"
    refuse_if (not cfg.enabled) "upgrade_disabled"
    refuse_if (not (any_is cfg.allowed_channels r.channel)) "upgrade_channel_not_allowed"
    target ← ok_or (v.parse r.version) "upgrade_version_invalid"
    current ← ok_or (v.parse current_version) "upgrade_version_invalid"
    map_error (check_version_window v target current cfg) "upgrade_version_too_old"
    base ←
        map_error (derive_release_base_url v parse_url profile.repo r.version) "upgrade_url_invalid"
    ok tt

  -- From there to the event `upgrade_downloaded`.
  unfoldable pub obtain : UpgradeProfile → Request → StageMeets → Result String (Manifest × Bytes)
  obtain profile r m = do
    manifest_text ← ok_or m.manifest_text "upgrade_network_error"
    bundle_text ← ok_or m.bundle_text "upgrade_network_error"
    m.verified
    manifest ← ok_or m.manifest "upgrade_manifest_invalid"
    map_error (validate_request parse_url manifest r.version r.channel profile.device_type)
        "upgrade_manifest_invalid"
    refuse_if (not (is_newer manifest m.installed)) "upgrade_sequence_too_old"
    artefact ← ok_or (pick_artefact manifest r.arch r.variant) "upgrade_arch_mismatch"
    bytes ← download_error m.tarball
    ok (manifest, bytes)

-- The state that is written for the new version.
unfoldable pub new_state : String → Request → StageMeets → Manifest → InstallState
new_state current_version r m manifest = record {
  current_version = r.version;
  previous_version = elim m.installed_later [
    | none ↦ some current_version
    | some s ↦ some s.current_version
  ];
  channel = r.channel;
  variant = r.variant;
  arch = r.arch;
  status = pending_health;
  boot_attempts = 0;
  staged_at = m.now;
  last_health_at = none;
  last_sequence = manifest.sequence;
}

pub data StageEffect : Type 0 where
  started downloaded_event staged_event : StageEffect
  -- `stage_new_version` of a tarball, and the write of the state.
  extracts : Bytes → StageEffect
  writes : InstallState → StageEffect

-- What follows the download.
unfoldable pub install :
    UpgradeConfig
    → String
    → Request
    → StageMeets
    → Manifest
    → Bytes
    → List StageEffect × Result String String
unfolding new_state
install cfg current_version r m manifest bytes =
    if cfg.manual_only then ([], err "upgrade_staged_manual") else elim (m.install_dir bytes) [
      | none ↦ (extracts bytes ∷ [], err "upgrade_extract_failed")
      | some dir ↦
          let s = new_state current_version r m manifest in
          if m.saved
          then (extracts bytes ∷ writes s ∷ staged_event ∷ [], ok dir)
          else (extracts bytes ∷ [], err "upgrade_extract_failed")
    ]

unfoldable pub after_obtain :
    UpgradeConfig
    → String
    → Request
    → StageMeets
    → Result String (Manifest × Bytes)
    → List StageEffect × Result String String
after_obtain cfg current_version r m (err code) = (started ∷ [], err code)
after_obtain cfg current_version r m (ok (manifest, bytes)) =
    let (effects, result) = install cfg current_version r m manifest bytes in
    (started ∷ downloaded_event ∷ effects, result)

module _ (v : Semver) (parse_url : String → Option ParsedUrl) where
  unfoldable pub after_admit :
      UpgradeProfile
      → UpgradeConfig
      → String
      → Request
      → StageMeets
      → Result String (Unit {0})
      → List StageEffect × Result String String
  after_admit profile cfg current_version r m (err code) = ([], err code)
  after_admit profile cfg current_version r m (ok u) =
      after_obtain cfg current_version r m (obtain v parse_url profile r m)

  unfoldable pub stage :
      UpgradeProfile
      → UpgradeConfig
      → String
      → Request
      → StageMeets
      → List StageEffect × Result String String
  stage profile cfg current_version r m =
      after_admit profile cfg current_version r m
        (admit v parse_url profile cfg current_version r m)
