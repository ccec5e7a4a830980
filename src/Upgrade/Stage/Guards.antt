-- ===== src/Upgrade/Stage/Guards.antt =====
-- src/upgrade/mod.rs, `UpgradeCoordinator::stage`: what must hold before anything is put on the disk.
use bilbycast_gateway_sdk.Base.{
  ◌<◌, ◌≡◌, refl, subst, ◌⊎◌, inl, inr, String, Bool, true, false, Option, none, some, Option-cases,
  List, [], ◌∷◌, arith, Result, ok, err, Result-cases,
}
use bilbycast_gateway_sdk.Upgrade.{UpgradeConfig}
use bilbycast_gateway_sdk.Upgrade.State.{InstallState}
use bilbycast_gateway_sdk.Upgrade.Download.{Bytes}
use bilbycast_gateway_sdk.Upgrade.Manifest.{
  Manifest, ManifestArtefact, ParsedUrl, Semver, any_is, pick_artefact, validate_request,
  check_version_window, derive_release_base_url,
}
use bilbycast_gateway_sdk.Upgrade.Manifest.Checks.{AnswersRequest, validate_request-AnswersRequest}
use bilbycast_gateway_sdk.Upgrade.Stage.{
  UpgradeProfile, Request, StageMeets, downloaded, Download, StageEffect, started, downloaded_event,
  staged_event, extracts, writes, admit, obtain, install, after_admit, after_obtain, stage,
  is_newer, checksum_mismatch, download_failed, download_error,
}

abbrev pub puts_on_disk : List StageEffect → Bool
puts_on_disk [] = false
puts_on_disk (extracts bytes ∷ es) = true
puts_on_disk (writes s ∷ es) = true
puts_on_disk (started ∷ es) = puts_on_disk es
puts_on_disk (downloaded_event ∷ es) = puts_on_disk es
puts_on_disk (staged_event ∷ es) = puts_on_disk es

module _ (v : Semver) (parse_url : String → Option ParsedUrl) (profile : UpgradeProfile)
    (cfg : UpgradeConfig) (current_version : String) (r : Request) (m : StageMeets) where
  -- The request is one that the policy lets through.
  pub record IsAdmitted : Type 0 where
    pub alone : m.in_flight ≡ false
    pub enabled : cfg.enabled ≡ true
    pub channel : any_is cfg.allowed_channels r.channel ≡ true
    pub target : v.Version
    pub target_parses : v.parse r.version ≡ some target
    pub current : v.Version
    pub current_parses : v.parse current_version ≡ some current
    pub in_window : check_version_window v target current cfg ≡ ok tt
    pub base_url : String
    pub url_allowed : derive_release_base_url v parse_url profile.repo r.version ≡ ok base_url

  -- The manifest is signed, answers the request, and is no replay; the download has its checksum.
  pub record IsObtained (manifest : Manifest) : Type 0 where
    pub manifest_text : String
    pub manifest_fetched : m.manifest_text ≡ some manifest_text
    pub bundle_text : String
    pub bundle_fetched : m.bundle_text ≡ some bundle_text
    pub verified : m.verified ≡ ok tt
    pub parses : m.manifest ≡ some manifest
    pub answers : AnswersRequest parse_url manifest r.version r.channel profile.device_type
    pub newer :
        (m.installed ≡ none)
        ⊎ ((s : InstallState) × (m.installed ≡ some s) × (s.last_sequence < manifest.sequence))
    pub artefact : ManifestArtefact
    pub picked : pick_artefact manifest r.arch r.variant ≡ some artefact
    pub tarball : Bytes
    pub checked : m.tarball ≡ downloaded tarball

  newer_sound :
      (manifest : Manifest)
      → is_newer manifest m.installed ≡ true
      → (m.installed ≡ none)
        ⊎ ((s : InstallState) × (m.installed ≡ some s) × (s.last_sequence < manifest.sequence))
  newer_sound manifest h = elim (Option-cases m.installed) [
    | inl e ↦ inl e
    | inr p ↦ inr (p.0, p.1, ground (arith, p.1, h))
  ]

  download_sound :
      (d : Download) (bytes : Bytes) → download_error d ≡ ok bytes → d ≡ downloaded bytes
  download_sound (downloaded b) bytes h = ground (arith, h)
  download_sound checksum_mismatch bytes h = absurd (ground (arith, h))
  download_sound download_failed bytes h = absurd (ground (arith, h))

  admit_sound : admit v parse_url profile cfg current_version r m ≡ ok tt → IsAdmitted
  unfolding admit
  admit_sound h = elim (Option-cases (v.parse r.version)) [
    | inl e ↦ absurd (ground (arith, e, h))
    | inr t ↦ elim (Option-cases (v.parse current_version)) [
      | inl e ↦ absurd (ground (arith, t.1, e, h))
      | inr c ↦ elim (Result-cases (check_version_window v t.0 c.0 cfg)) [
        | inr e ↦ absurd (ground (arith, t.1, c.1, e.1, h))
        | inl w ↦ elim (Result-cases (derive_release_base_url v parse_url profile.repo r.version)) [
          | inr e ↦ absurd (ground (arith, t.1, c.1, w.1, e.1, h))
          | inl u ↦ record {
            alone = ground (arith, h);
            enabled = ground (arith, h);
            channel = ground (arith, h);
            target = t.0;
            target_parses = t.1;
            current = c.0;
            current_parses = c.1;
            in_window = w.1;
            base_url = u.0;
            url_allowed = u.1;
          }
        ]
      ]
    ]
  ]

  obtain_sound :
      (manifest : Manifest) (bytes : Bytes)
      → obtain v parse_url profile r m ≡ ok (manifest, bytes)
      → IsObtained manifest
  unfolding obtain
  obtain_sound manifest bytes h = elim (Option-cases m.manifest_text) [
    | inl e ↦ absurd (ground (arith, e, h))
    | inr t ↦ elim (Option-cases m.bundle_text) [
      | inl e ↦ absurd (ground (arith, t.1, e, h))
      | inr b ↦ elim (Result-cases m.verified) [
        | inr e ↦ absurd (ground (arith, t.1, b.1, e.1, h))
        | inl s ↦ elim (Option-cases m.manifest) [
          | inl e ↦ absurd (ground (arith, t.1, b.1, s.1, e, h))
          | inr p ↦
              elim (Result-cases
                (validate_request parse_url p.0 r.version r.channel profile.device_type)) [
                  | inr e ↦ absurd (ground (arith, t.1, b.1, s.1, p.1, e.1, h))
                  | inl a ↦ elim (Option-cases (pick_artefact p.0 r.arch r.variant)) [
                    | inl e ↦ absurd (ground (arith, t.1, b.1, s.1, p.1, a.1, e, h))
                    | inr k ↦ elim (Result-cases (download_error m.tarball)) [
                      | inr e ↦ absurd (ground (arith, t.1, b.1, s.1, p.1, a.1, k.1, e.1, h))
                      | inl d ↦
                          let same : p.0 ≡ manifest =
                            ground (arith, t.1, b.1, s.1, p.1, a.1, k.1, d.1, h) in
                          subst IsObtained same (record {
                            manifest_text = t.0;
                            manifest_fetched = t.1;
                            bundle_text = b.0;
                            bundle_fetched = b.1;
                            verified = s.1;
                            parses = p.1;
                            answers =
                                (validate_request-AnswersRequest parse_url p.0 r.version r.channel
                                    profile.device_type).0
                                  a.1;
                            newer =
                                newer_sound p.0
                                  (ground (arith, t.1, b.1, s.1, p.1, a.1, k.1, d.1, h));
                            artefact = k.0;
                            picked = k.1;
                            tarball = d.0;
                            checked = download_sound m.tarball d.0 d.1;
                          })
                    ]
                  ]
                ]
        ]
      ]
    ]
  ]

  abbrev Accepted : Type 0
  Accepted = IsAdmitted × ((manifest : Manifest) × IsObtained manifest × (cfg.manual_only ≡ false))

  install-manual_only :
      (manifest : Manifest) (bytes : Bytes)
      → puts_on_disk (install cfg current_version r m manifest bytes).0 ≡ true
      → cfg.manual_only ≡ false
  unfolding install
  install-manual_only manifest bytes h = ground (arith, h)

  after_obtain-Accepted :
      (o : Result String (Manifest × Bytes))
      → obtain v parse_url profile r m ≡ o
      → IsAdmitted
      → puts_on_disk (after_obtain cfg current_version r m o).0 ≡ true
      → Accepted
  unfolding after_obtain
  after_obtain-Accepted (err code) e a h = absurd (ground (arith, h))
  after_obtain-Accepted (ok (manifest, bytes)) e a h =
      (a, (manifest, obtain_sound manifest bytes e, install-manual_only manifest bytes h))

  after_admit-Accepted :
      (o : Result String (Unit {0}))
      → admit v parse_url profile cfg current_version r m ≡ o
      → puts_on_disk (after_admit v parse_url profile cfg current_version r m o).0 ≡ true
      → Accepted
  unfolding after_admit
  after_admit-Accepted (err code) e h = absurd (ground (arith, h))
  after_admit-Accepted (ok u) e h =
      after_obtain-Accepted (obtain v parse_url profile r m) refl (admit_sound e) h

-- A request to stage a version puts something on the disk (the extracted version, or the state) only
-- if no other is being staged, upgrades are enabled, the channel is allowed, both versions parse and
-- the new one is in the window, its release URL is allowed, the manifest and its bundle were fetched
-- and verified, the manifest answers the request with a higher sequence number than the installed
-- one, it has an artefact for the architecture and the variant, the download has that artefact's
-- checksum, and the policy is not manual.
pub stage-Accepted :
    (v : Semver) (parse_url : String → Option ParsedUrl) (profile : UpgradeProfile)
    (cfg : UpgradeConfig) (current_version : String) (r : Request) (m : StageMeets)
    → puts_on_disk (stage v parse_url profile cfg current_version r m).0 ≡ true
    → IsAdmitted v parse_url profile cfg current_version r m
      × ((manifest : Manifest) × IsObtained v parse_url profile cfg current_version r m manifest
          × (cfg.manual_only ≡ false))
unfolding stage
stage-Accepted v parse_url profile cfg current_version r m h =
    after_admit-Accepted v parse_url profile cfg current_version r m
      (admit v parse_url profile cfg current_version r m) refl h
