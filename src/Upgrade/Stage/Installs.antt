-- ===== src/Upgrade/Stage/Installs.antt =====
-- src/upgrade/mod.rs, `UpgradeCoordinator::stage`: what a staging that passes leaves behind.
use bilbycast_gateway_sdk.Base.{
  ◌≡◌, refl, String, true, false, Option, none, some, List, [], ◌∷◌, arith, Result, ok, err, inl,
  inr, Bool-cases, Option-cases,
}
use bilbycast_gateway_sdk.Upgrade.{UpgradeConfig}
use bilbycast_gateway_sdk.Upgrade.State.{InstallState, pending_health}
use bilbycast_gateway_sdk.Upgrade.Download.{Bytes}
use bilbycast_gateway_sdk.Upgrade.Manifest.{Manifest, ParsedUrl, Semver}
use bilbycast_gateway_sdk.Upgrade.Manifest.Checks.{validate_request-AnswersRequest}
use bilbycast_gateway_sdk.Upgrade.Stage.{
  UpgradeProfile, Request, StageMeets, StageEffect, started, downloaded_event, staged_event,
  extracts, writes, admit, obtain, install, after_admit, after_obtain, stage, new_state, is_newer,
}
use bilbycast_gateway_sdk.Upgrade.Stage.Guards.{IsAdmitted, IsObtained}

module _ (v : Semver) (parse_url : String → Option ParsedUrl) (profile : UpgradeProfile)
    (cfg : UpgradeConfig) (current_version : String) (r : Request) (m : StageMeets) where
  admit_complete :
      IsAdmitted v parse_url profile cfg current_version r m
      → admit v parse_url profile cfg current_version r m ≡ ok tt
  unfolding admit
  admit_complete a =
      simp
        (
          a.alone, a.enabled, a.channel, a.target_parses, a.current_parses, a.in_window,
          a.url_allowed,
        )
        refl

  obtain_complete :
      (manifest : Manifest) (o : IsObtained v parse_url profile cfg current_version r m manifest)
      → obtain v parse_url profile r m ≡ ok (manifest, o.tarball)
  unfolding obtain
  obtain_complete manifest o =
      let answers =
        (validate_request-AnswersRequest parse_url manifest r.version r.channel
            profile.device_type).1
          o.answers in
      let newer : is_newer manifest m.installed ≡ true = elim o.newer [
        | inl e ↦ ground (arith, e)
        | inr p ↦ ground (arith, p)
      ] in
      simp
        (
          o.manifest_fetched, o.bundle_fetched, o.verified, o.parses, answers, newer, o.picked,
          o.checked,
        )
        refl

-- The version that a new one replaces: that of the installed state, or the one that runs.
abbrev pub replaced : String → Option InstallState → String
replaced current_version none = current_version
replaced current_version (some s) = s.current_version

-- The state of a version that is new: it waits for its health, and no boot is counted.
abbrev pub new_install : String → Request → StageMeets → Manifest → InstallState
new_install current_version r m manifest = record {
  current_version = r.version;
  previous_version = some (replaced current_version m.installed_later);
  channel = r.channel;
  variant = r.variant;
  arch = r.arch;
  status = pending_health;
  boot_attempts = 0;
  staged_at = m.now;
  last_health_at = none;
  last_sequence = manifest.sequence;
}

new_state-new_install :
    (current_version : String) (r : Request) (m : StageMeets) (manifest : Manifest)
    → new_state current_version r m manifest ≡ new_install current_version r m manifest
unfolding new_state
new_state-new_install current_version r m manifest = elim (Option-cases m.installed_later) [
  | inl e ↦ ground (arith, e)
  | inr e ↦ ground (arith, e)
]

-- How a staging ends that has passed every guard: by policy before the installation, in the
-- installation, in the write of the state, or well.
pub data Ends (cfg : UpgradeConfig) (current_version : String) (r : Request) (m : StageMeets)
    (manifest : Manifest) (tarball : Bytes) : List StageEffect × Result String String → Type 0 where
  manual :
      cfg.manual_only ≡ true
      → Ends cfg current_version r m manifest tarball
          (started ∷ downloaded_event ∷ [], err "upgrade_staged_manual")
  not_installed :
      cfg.manual_only ≡ false
      → m.install_dir tarball ≡ none
      → Ends cfg current_version r m manifest tarball
          (started ∷ downloaded_event ∷ extracts tarball ∷ [], err "upgrade_extract_failed")
  not_written :
      (dir : String)
      → cfg.manual_only ≡ false
      → m.install_dir tarball ≡ some dir
      → m.saved ≡ false
      → Ends cfg current_version r m manifest tarball
          (started ∷ downloaded_event ∷ extracts tarball ∷ [], err "upgrade_extract_failed")
  staged :
      (dir : String)
      → cfg.manual_only ≡ false
      → m.install_dir tarball ≡ some dir
      → m.saved ≡ true
      → Ends cfg current_version r m manifest tarball (
        started
            ∷ downloaded_event
            ∷ extracts tarball
            ∷ writes (new_install current_version r m manifest)
            ∷ staged_event
            ∷ [],
        ok dir,
      )

-- A request that passes every guard ends in one of four ways, each with exactly these effects in this
-- order. Where the policy is manual: the two events of its progress and the code for it. Where the
-- installation of the downloaded tarball fails, or the state cannot be written: those events, that
-- tarball extracted, and a failure. Otherwise: those events, that tarball extracted, the state of the new
-- version (which waits for its health with no boot counted, remembers the version that it replaces and
-- has the manifest's sequence number), the event that it is staged, and its directory.
pub stage-installs :
    (v : Semver) (parse_url : String → Option ParsedUrl) (profile : UpgradeProfile)
    (cfg : UpgradeConfig) (current_version : String) (r : Request) (m : StageMeets)
    (manifest : Manifest)
    → IsAdmitted v parse_url profile cfg current_version r m
    → (o : IsObtained v parse_url profile cfg current_version r m manifest)
    → Ends cfg current_version r m manifest o.tarball
        (stage v parse_url profile cfg current_version r m)
unfolding stage after_admit after_obtain install
stage-installs v parse_url profile cfg current_version r m manifest a o =
    rw
      (
        admit_complete v parse_url profile cfg current_version r m a,
        obtain_complete v parse_url profile cfg current_version r m manifest o,
      )
      (elim (Bool-cases cfg.manual_only) [
        | inl auto ↦ simp auto (manual auto)
        | inr auto ↦ elim (Option-cases (m.install_dir o.tarball)) [
          | inl e ↦ simp (auto, e) (not_installed auto e)
          | inr (dir, e) ↦ elim (Bool-cases m.saved) [
            | inr f ↦ simp (auto, e, f) (not_written dir auto e f)
            | inl f ↦
                simp (auto, e, f, new_state-new_install current_version r m manifest)
                  (staged dir auto e f)
          ]
        ]
      ])
