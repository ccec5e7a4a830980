-- ===== src/Tests/Upgrades.antt =====
-- Upgrades at concrete values: a manifest, a version window and the watchdog's boots.
use bilbycast_gateway_sdk.Base.{
  inl, inr, ◌-◌, ◌%◌, ℕ, ◌≡◌, refl, ◌↔◌, ◌⊎◌, String, true, Option, some, [], ◌∷◌, ◌++◌, arith, ok,
  ltb, ◌==◌,
}
use bilbycast_gateway_sdk.Upgrade.{UpgradeConfig, default_upgrade_config}
use bilbycast_gateway_sdk.Upgrade.Manifest.{
  Manifest, ParsedUrl, Semver, validate_request, check_version_window,
}
use bilbycast_gateway_sdk.Upgrade.Manifest.Checks.{AnswersRequest, validate_request-AnswersRequest}
use bilbycast_gateway_sdk.Upgrade.Manifest.Window.{IsInWindow, check_version_window-IsInWindow}
use bilbycast_gateway_sdk.Upgrade.Signers.{AllowedSigner, CertIdentity, identity_matches_allowlist}
use bilbycast_gateway_sdk.Upgrade.Signers.Identity.{SomeSigner, identity_matches_allowlist_iff}
use bilbycast_gateway_sdk.Upgrade.State.{InstallState, pending_health, stable, Disk, holds}
use bilbycast_gateway_sdk.Upgrade.Watchdog.{exits, returns, was_rolled_back, finalize_if_stable}
use bilbycast_gateway_sdk.Upgrade.Watchdog.CrashLoop.{
  boots, with_state, gone_back, counted, no_faults, boots-rolls_back,
}
use bilbycast_gateway_sdk.Upgrade.Watchdog.Stuck.{boots_with, links_work, boots-stays}
use bilbycast_gateway_sdk.Upgrade.Watchdog.Health.{
  whole_secs, completed, previous_or_unknown, IsHealthy, finalize_if_stable-IsHealthy,
}

abbrev parse_url : String → Option ParsedUrl
parse_url url = some (record { scheme = "https"; host_str = some "github.com" })

abbrev release : Manifest
release = record {
  version = "1.2.0";
  device_type = "appear_x";
  channel = "stable";
  released_at = "today";
  sequence = 7;
  artefacts =
      record {
        arch = "x86_64-linux";
        variant = "default";
        url = "https://github.com/o/r/a.tar.gz";
        sha256 = "0123456789abcdef0123456789abcdef0123456789abcdef0123456789abcdef";
      }
      ∷ [];
}

validate_request-AnswersRequest_example :
    (validate_request parse_url release "1.2.0" "stable" "appear_x" ≡ ok tt)
    ↔ AnswersRequest parse_url release "1.2.0" "stable" "appear_x"
validate_request-AnswersRequest_example =
    validate_request-AnswersRequest parse_url release "1.2.0" "stable" "appear_x"

-- Versions with a minor number alone.
abbrev minors : Semver
minors = record {
  Version = ℕ;
  parse = λ text. some 2;
  major = λ v. 1;
  minor = λ v. v;
  less = ltb;
  same = λ a b. a == b;
  display = λ v. "1";
}

check_version_window-IsInWindow_example :
    (check_version_window minors 4 5 default_upgrade_config ≡ ok tt)
    ↔ IsInWindow minors default_upgrade_config 4 5
check_version_window-IsInWindow_example =
    check_version_window-IsInWindow minors default_upgrade_config 4 5

abbrev policy : UpgradeConfig
policy = record default_upgrade_config { enabled = true }

abbrev staged : InstallState
staged = record {
  current_version = "1.2.0";
  previous_version = some "1.1.0";
  channel = "stable";
  variant = "default";
  arch = "x86_64-linux";
  status = pending_health;
  boot_attempts = 0;
  staged_at = 0;
  last_health_at = some 100000000000;
  last_sequence = 7;
}

abbrev disk : Disk
disk = record {
  state_file = holds staged;
  versions = "1.1.0" ∷ "1.2.0" ∷ [];
  current = some "1.2.0";
}

abbrev debug : Option String → String
debug v = "version"

boots-rolls_back_example :
    ((boots debug policy 5 disk).0
      ≡ with_state
          (record disk { current = some "1.1.0" })
          (record (gone_back staged "1.1.0") { status = stable; boot_attempts = 0 }))
    × ((boots debug policy 5 disk).1
        ≡ counted 0 3 ++ exits ∷ returns (was_rolled_back "1.2.0" "1.1.0") ∷ [])
boots-rolls_back_example =
    boots-rolls_back debug policy disk staged "1.1.0" refl (omega arith) refl refl refl refl

abbrev pruned : Disk
pruned = record disk { versions = "1.2.0" ∷ [] }

boots-stays_example :
    ((boots_with debug policy (links_work true) 5 (with_state pruned staged)).0
      ≡ with_state pruned (record staged { status = stable; boot_attempts = 0 }))
    × ((boots_with debug policy (links_work true) 5 (with_state pruned staged)).1
        ≡ counted 0 3 ++ exits ∷ returns (was_rolled_back "1.1.0" "1.2.0") ∷ [])
boots-stays_example =
    boots-stays debug policy true pruned staged refl (omega arith) refl refl
      (inr ("1.1.0", refl, inl refl))

abbrev show : ℕ → String
show n = "many"

finalize_if_stable-IsHealthy_example :
    (IsHealthy policy 130000000000 130000000000 staged
      × (finalize_if_stable show no_faults policy 130000000000 130000000000 disk ≡ (
        record disk { state_file = holds (record staged { status = stable }) },
        completed show staged
              (previous_or_unknown staged.previous_version)
              (whole_secs (130000000000 - staged.staged_at) % 4294967296)
            ∷ [],
      )))
    ⊎ ((¬ IsHealthy policy 130000000000 130000000000 staged)
        × (finalize_if_stable show no_faults policy 130000000000 130000000000 disk ≡ (disk, [])))
finalize_if_stable-IsHealthy_example =
    finalize_if_stable-IsHealthy show no_faults policy 130000000000 130000000000 disk staged refl
      refl

abbrev signer : AllowedSigner
signer = record {
  issuer = "https://issuer";
  repo = "https://github.com/o/r";
  ref_pattern = "refs/tags/v*";
  workflow = "https://github.com/o/r/.github/workflows/release.yml";
}

abbrev identity : CertIdentity
identity = record {
  issuer = some "https://issuer";
  repo = some "https://github.com/o/r";
  workflow_uri = some "https://github.com/o/r/.github/workflows/release.yml@refs/tags/v1.2.0";
  ref_claim = some "refs/tags/v1.2.0";
}

identity_matches_allowlist_iff_example :
    (identity_matches_allowlist identity (signer ∷ []) ≡ true) ↔ SomeSigner identity (signer ∷ [])
identity_matches_allowlist_iff_example = identity_matches_allowlist_iff identity (signer ∷ [])
