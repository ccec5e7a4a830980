-- ===== src/Upgrade/Manifest.antt =====
-- src/upgrade/manifest.rs: what a release manifest must be before anything is downloaded by it, where
-- artefacts and redirects may come from, and the window of versions. URLs and semantic versions are
-- parsed by third-party libraries (url, semver), which are the sections' parameters.
pub mod Checks
pub mod Window
use bilbycast_gateway_sdk.Base.{
  ℕ, ◌+◌, ◌%◌, String, len, append, Bool, true, false, not, ◌&&◌, ◌||◌, Option, none, some, List,
  [], ◌∷◌, ltb, ◌==◌, if◌then◌else◌, length, str_eq, ends_with, is_ascii_hexdigit, all_chars,
  Result, ok, err, ◌>>=◌, ◌>>◌, refuse_if, ok_or,
}
use bilbycast_gateway_sdk.Upgrade.{UpgradeConfig}

pub record ManifestArtefact : Type 0 where
  pub arch : String
  pub variant : String
  pub url : String
  pub sha256 : String

pub record Manifest : Type 0 where
  pub version : String
  pub device_type : String
  pub channel : String
  pub released_at : String
  pub sequence : ℕ
  pub artefacts : List ManifestArtefact

-- What the text of each error interpolates.
pub data ManifestError : Type 0 where
  not_a_url must_use_https no_host host_not_allowed url_too_long : String → ManifestError
  version_mismatch channel_mismatch device_type_mismatch : String → String → ManifestError
  no_artefacts : ManifestError
  malformed_sha256 : String → String → ManifestError
  bad_arch bad_variant : ManifestError
  version_not_semver min_version_not_semver : String → ManifestError
  below_min_version same_version major_boundary too_far_behind : ManifestError

abbrev pub allowed_url_hosts : List String
allowed_url_hosts =
    "github.com" ∷ "release-assets.githubusercontent.com" ∷ "objects.githubusercontent.com" ∷ []

abbrev pub any_is : List String → String → Bool
any_is [] s = false
any_is (t ∷ ts) s = str_eq t s || any_is ts s

-- What `url::Url::parse` gives.
pub record ParsedUrl : Type 0 where
  pub scheme : String
  pub host_str : Option String

unfoldable pub redirect_host_allowed : String → Bool
redirect_host_allowed host =
    str_eq host "github.com"
    || str_eq host "githubusercontent.com"
    || ends_with host ".githubusercontent.com"

module _ (parse_url : String → Option ParsedUrl) where
  unfoldable pub validate_url_host : String → Result ManifestError (Unit {0})
  validate_url_host url = do
    parsed ← ok_or (parse_url url) (not_a_url url)
    refuse_if (not (str_eq parsed.scheme "https")) (must_use_https url)
    host ← ok_or parsed.host_str (no_host url)
    refuse_if (not (any_is allowed_url_hosts host)) (host_not_allowed url)
    refuse_if (ltb 2048 (len url)) (url_too_long url)

  unfoldable pub check_artefact : ManifestArtefact → Result ManifestError (Unit {0})
  check_artefact a = do
    validate_url_host a.url
    refuse_if (not (len a.sha256 == 64) || not (all_chars is_ascii_hexdigit a.sha256))
        (malformed_sha256 a.arch a.sha256)
    refuse_if (len a.arch == 0 || ltb 64 (len a.arch)) bad_arch
    refuse_if (len a.variant == 0 || ltb 32 (len a.variant)) bad_variant

  unfoldable pub check_artefacts : List ManifestArtefact → Result ManifestError (Unit {0})
  check_artefacts [] = ok tt
  check_artefacts (a ∷ others) = let rest = check_artefacts others in do check_artefact a; rest

  unfoldable pub validate_request :
      Manifest → String → String → String → Result ManifestError (Unit {0})
  validate_request m requested_version requested_channel expected_device_type = do
    refuse_if (not (str_eq m.version requested_version))
        (version_mismatch requested_version m.version)
    refuse_if (not (str_eq m.channel requested_channel))
        (channel_mismatch requested_channel m.channel)
    refuse_if (not (str_eq m.device_type expected_device_type))
        (device_type_mismatch expected_device_type m.device_type)
    refuse_if (length m.artefacts == 0) no_artefacts
    check_artefacts m.artefacts

-- `Iterator::find` on the two keys.
unfoldable pub find_artefact : List ManifestArtefact → String → String → Option ManifestArtefact
find_artefact [] arch variant = none
find_artefact (a ∷ others) arch variant =
    let rest = find_artefact others arch variant in
    if str_eq a.arch arch && str_eq a.variant variant then some a else rest

unfoldable pub pick_artefact : Manifest → String → String → Option ManifestArtefact
unfolding find_artefact
pick_artefact m arch variant = find_artefact m.artefacts arch variant

-- The semver library: what the source uses of `semver::Version`.
pub record Semver : Type 1 where
  pub Version : Type 0
  pub parse : String → Option Version
  pub major : Version → ℕ
  pub minor : Version → ℕ
  pub less : Version → Version → Bool
  pub same : Version → Version → Bool
  pub display : Version → String

module _ (v : Semver) where
  open v use {Version, parse, major, minor, less, same, display}

  abbrev pub below_min : Option String → Version → Result ManifestError Bool
  below_min none target = ok false
  below_min (some text) target = do
    min ← ok_or (parse text) (min_version_not_semver text)
    ok (less target min)

  -- The sum of minor version and grace is one of `u64`.
  unfoldable pub check_version_window :
      Version → Version → UpgradeConfig → Result ManifestError (Unit {0})
  check_version_window target current cfg = do
    below ← below_min cfg.min_version target
    refuse_if below below_min_version
    refuse_if (same target current) same_version
    refuse_if (not (major target == major current)) major_boundary
    refuse_if (ltb ((minor target + cfg.rollback_grace) % 18446744073709551616) (minor current))
        too_far_behind

  unfoldable pub derive_release_base_url :
      (String → Option ParsedUrl) → String → String → Result ManifestError String
  derive_release_base_url parse_url repo version = do
    w ← ok_or (parse version) (version_not_semver version)
    let url = append "https://github.com/" (append repo (append "/releases/download/v" (display w)))
    validate_url_host parse_url url
    ok url
