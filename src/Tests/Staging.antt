-- ===== src/Tests/Staging.antt =====
-- A staging at concrete values: a signed manifest for the version after the one that runs.
use bilbycast_gateway_sdk.Base.{
  ℕ, ◌≡◌, refl, inl, String, true, false, Option, none, some, [], ◌∷◌, ok, ltb, ◌==◌, if◌then◌else◌,
  str_eq,
}
use bilbycast_gateway_sdk.Upgrade.{UpgradeConfig, default_upgrade_config}
use bilbycast_gateway_sdk.Upgrade.Manifest.{
  ManifestArtefact, Manifest, ParsedUrl, Semver, validate_request, check_artefacts, check_artefact,
  validate_url_host, check_version_window, derive_release_base_url, pick_artefact, find_artefact,
}
use bilbycast_gateway_sdk.Upgrade.Manifest.Checks.{AnswersRequest, validate_request-AnswersRequest}
use bilbycast_gateway_sdk.Upgrade.Stage.Installs.{Ends, stage-installs}
use bilbycast_gateway_sdk.Upgrade.Stage.{
  UpgradeProfile, Request, StageMeets, downloaded, stage, admit, obtain, after_admit, after_obtain,
  install,
}
use bilbycast_gateway_sdk.Upgrade.Stage.Guards.{IsAdmitted, IsObtained, stage-Accepted}

abbrev pub parse_url : String → Option ParsedUrl
parse_url url = some (record { scheme = "https"; host_str = some "github.com" })

abbrev tarball : ManifestArtefact
tarball = record {
  arch = "x86_64-linux";
  variant = "default";
  url = "https://github.com/o/r/a.tar.gz";
  sha256 = "0123456789abcdef0123456789abcdef0123456789abcdef0123456789abcdef";
}

abbrev pub release : Manifest
release = record {
  version = "1.2.0";
  device_type = "appear_x";
  channel = "stable";
  released_at = "today";
  sequence = 7;
  artefacts = tarball ∷ [];
}

abbrev minor_of : String → ℕ
minor_of text = if str_eq text "1.2.0" then 2 else 1

-- Versions with a minor number alone.
abbrev pub minors : Semver
minors = record {
  Version = ℕ;
  parse = λ text. some (minor_of text);
  major = λ v. 1;
  minor = λ v. v;
  less = ltb;
  same = λ a b. a == b;
  display = λ v. "1.2.0";
}

abbrev pub profile : UpgradeProfile
profile = record { repo = "o/r"; binary_name = "gateway"; device_type = "appear_x" }

abbrev pub policy : UpgradeConfig
policy = record default_upgrade_config { enabled = true }

abbrev pub request : Request
request = record {
  version = "1.2.0";
  channel = "stable";
  arch = "x86_64-linux";
  variant = "default";
}

abbrev meets : StageMeets
meets = record {
  in_flight = false;
  manifest_text = some "manifest";
  bundle_text = some "bundle";
  verified = ok tt;
  manifest = some release;
  installed = none;
  tarball = downloaded (1 ∷ 2 ∷ []);
  install_dir = λ bytes. some "/opt/bilbycast/gateway/versions/1.2.0";
  installed_later = none;
  saved = true;
  now = 0;
}

stage-Accepted_example :
    IsAdmitted minors parse_url profile policy "1.1.0" request meets
    × ((manifest : Manifest) × IsObtained minors parse_url profile policy "1.1.0" request meets
          manifest
        × (policy.manual_only ≡ false))
unfolding stage admit obtain after_admit after_obtain install validate_request check_artefacts
    check_artefact validate_url_host check_version_window derive_release_base_url pick_artefact
    find_artefact
stage-Accepted_example = stage-Accepted minors parse_url profile policy "1.1.0" request meets refl

admitted : IsAdmitted minors parse_url profile policy "1.1.0" request meets
unfolding validate_url_host check_version_window derive_release_base_url
admitted = record {
  alone = refl;
  enabled = refl;
  channel = refl;
  target = 2;
  target_parses = refl;
  current = 1;
  current_parses = refl;
  in_window = refl;
  base_url = "https://github.com/o/r/releases/download/v1.2.0";
  url_allowed = refl;
}

release-answers : AnswersRequest parse_url release "1.2.0" "stable" "appear_x"
unfolding validate_request check_artefacts check_artefact validate_url_host
release-answers =
    (validate_request-AnswersRequest parse_url release "1.2.0" "stable" "appear_x").0 refl

obtained : IsObtained minors parse_url profile policy "1.1.0" request meets release
unfolding pick_artefact find_artefact
obtained = record {
  manifest_text = "manifest";
  manifest_fetched = refl;
  bundle_text = "bundle";
  bundle_fetched = refl;
  verified = refl;
  parses = refl;
  answers = release-answers;
  newer = inl refl;
  artefact = tarball;
  picked = refl;
  tarball = 1 ∷ 2 ∷ [];
  checked = refl;
}

stage-installs_example :
    Ends policy "1.1.0" request meets release obtained.tarball
      (stage minors parse_url profile policy "1.1.0" request meets)
stage-installs_example =
    stage-installs minors parse_url profile policy "1.1.0" request meets release admitted obtained
