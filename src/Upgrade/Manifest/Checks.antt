-- ===== src/Upgrade/Manifest/Checks.antt =====
-- src/upgrade/manifest.rs: which manifests and hosts pass.
use bilbycast_gateway_sdk.Base.{
  Option-cases, inl, inr, ◌≤◌, ◌≡◌, refl, String, len, append, ◌↔◌, ◌⊎◌, true, Option, some, List,
  [], ◌∷◌, arith, length, All, ok, eq_iff, ends_with_iff, all_chars, is_ascii_hexdigit, >>-eq-ok,
}
use bilbycast_gateway_sdk.Upgrade.Manifest.{
  ManifestArtefact, Manifest, ParsedUrl, redirect_host_allowed, validate_url_host, check_artefact,
  check_artefacts, validate_request,
}

-- A redirect is followed exactly to `github.com` or to `githubusercontent.com` and the hosts whose
-- name ends in `.githubusercontent.com`.
redirect_host_allowed_iff :
    (host : String)
    → (redirect_host_allowed host ≡ true) ↔ (
        (host ≡ "github.com")
        ⊎ ((host ≡ "githubusercontent.com")
            ⊎ ((p : String) × (host ≡ append p ".githubusercontent.com"))))
unfolding redirect_host_allowed
redirect_host_allowed_iff host = ground (
  arith,
  eq_iff host "github.com",
  eq_iff host "githubusercontent.com",
  ends_with_iff host ".githubusercontent.com",
)

abbrev pub IsAllowedHost : String → Type 0
IsAllowedHost host =
    (host ≡ "github.com")
    ⊎ ((host ≡ "release-assets.githubusercontent.com") ⊎ (host ≡ "objects.githubusercontent.com"))

module _ (parse_url : String → Option ParsedUrl) where
  pub record UrlIsAllowed (url : String) : Type 0 where
    pub parsed : ParsedUrl
    pub parses : parse_url url ≡ some parsed
    pub is_https : parsed.scheme ≡ "https"
    pub host : String
    pub has_host : parsed.host_str ≡ some host
    pub allowed : IsAllowedHost host
    pub fits : len url ≤ 2048

  pub record ArtefactIsValid (a : ManifestArtefact) : Type 0 where
    pub url : UrlIsAllowed a.url
    pub sha256_length : len a.sha256 ≡ 64
    pub sha256_hex : all_chars is_ascii_hexdigit a.sha256 ≡ true
    pub arch_given : 1 ≤ len a.arch
    pub arch_short : len a.arch ≤ 64
    pub variant_given : 1 ≤ len a.variant
    pub variant_short : len a.variant ≤ 32

  pub record AnswersRequest (m : Manifest) (version channel device_type : String) : Type 0 where
    pub version_as_asked : m.version ≡ version
    pub channel_as_asked : m.channel ≡ channel
    pub device_type_as_expected : m.device_type ≡ device_type
    pub some_artefact : 1 ≤ length m.artefacts
    pub artefacts : All ArtefactIsValid m.artefacts

  validate_url_host_sound :
      (url : String) → validate_url_host parse_url url ≡ ok tt → UrlIsAllowed url
  unfolding validate_url_host
  validate_url_host_sound url h = elim (Option-cases (parse_url url)) [
    | inl e ↦ absurd (ground (arith, e, h))
    | inr p ↦ elim (Option-cases p.0.host_str) [
      | inl e ↦ absurd (ground (arith, p.1, e, h))
      | inr q ↦ record {
        parsed = p.0;
        parses = p.1;
        is_https = ground (arith, p.1, q.1, h, eq_iff p.0.scheme "https");
        host = q.0;
        has_host = q.1;
        allowed = ground (
          arith,
          p.1,
          q.1,
          h,
          eq_iff "github.com" q.0,
          eq_iff "release-assets.githubusercontent.com" q.0,
          eq_iff "objects.githubusercontent.com" q.0,
        );
        fits = ground (arith, p.1, q.1, h);
      }
    ]
  ]

  validate_url_host_complete :
      (url : String) → UrlIsAllowed url → validate_url_host parse_url url ≡ ok tt
  unfolding validate_url_host
  validate_url_host_complete url v = ground (
    arith,
    eq_iff v.parsed.scheme "https",
    eq_iff "github.com" v.host,
    eq_iff "release-assets.githubusercontent.com" v.host,
    eq_iff "objects.githubusercontent.com" v.host,
  )

  check_artefact_sound :
      (a : ManifestArtefact) → check_artefact parse_url a ≡ ok tt → ArtefactIsValid a
  unfolding check_artefact
  check_artefact_sound a h =
      let (u, rest) = >>-eq-ok (validate_url_host parse_url a.url) _ h in
      record {
        url = validate_url_host_sound a.url u;
        sha256_length = ground arith;
        sha256_hex = ground arith;
        arch_given = ground arith;
        arch_short = ground arith;
        variant_given = ground arith;
        variant_short = ground arith;
      }

  check_artefact_complete :
      (a : ManifestArtefact) → ArtefactIsValid a → check_artefact parse_url a ≡ ok tt
  unfolding check_artefact
  check_artefact_complete a v = ground (arith, validate_url_host_complete a.url v.url)

  check_artefacts_sound :
      (as' : List ManifestArtefact)
      → check_artefacts parse_url as' ≡ ok tt
      → All ArtefactIsValid as'
  unfolding check_artefacts
  check_artefacts_sound [] h = tt
  check_artefacts_sound (a ∷ rest) h =
      let (first, others) = >>-eq-ok (check_artefact parse_url a) _ h in
      (check_artefact_sound a first, check_artefacts_sound rest others)

  check_artefacts_complete :
      (as' : List ManifestArtefact)
      → All ArtefactIsValid as'
      → check_artefacts parse_url as' ≡ ok tt
  unfolding check_artefacts
  check_artefacts_complete [] v = refl
  check_artefacts_complete (a ∷ rest) v =
      rw (check_artefact_complete a v.0) (check_artefacts_complete rest v.1)

  module _ (m : Manifest) (version channel device_type : String) where
    validate_request_sound :
        validate_request parse_url m version channel device_type ≡ ok tt
        → AnswersRequest m version channel device_type
    unfolding validate_request
    validate_request_sound h =
        let artefacts : check_artefacts parse_url m.artefacts ≡ ok tt = ground arith in
        record {
          version_as_asked = ground (arith, eq_iff m.version version);
          channel_as_asked = ground (arith, eq_iff m.channel channel);
          device_type_as_expected = ground (arith, eq_iff m.device_type device_type);
          some_artefact = ground arith;
          artefacts = check_artefacts_sound m.artefacts artefacts;
        }

    validate_request_complete :
        AnswersRequest m version channel device_type
        → validate_request parse_url m version channel device_type ≡ ok tt
    unfolding validate_request
    validate_request_complete v = ground (
      arith,
      eq_iff m.version version,
      eq_iff m.channel channel,
      eq_iff m.device_type device_type,
      check_artefacts_complete m.artefacts v.artefacts,
    )

-- A manifest passes exactly when it is for the version, the channel and the device type asked for,
-- and has artefacts, each with a URL of at most 2048 bytes that is `https` on one of the three GitHub
-- hosts, a SHA-256 of 64 hexadecimal digits, an architecture of 1 to 64 bytes and a variant of 1 to
-- 32.
pub validate_request-AnswersRequest :
    (parse_url : String → Option ParsedUrl) (m : Manifest) (version channel device_type : String)
    → (validate_request parse_url m version channel device_type ≡ ok tt)
      ↔ AnswersRequest parse_url m version channel device_type
validate_request-AnswersRequest parse_url m version channel device_type = (
  validate_request_sound parse_url m version channel device_type,
  validate_request_complete parse_url m version channel device_type,
)
