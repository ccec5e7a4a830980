-- ===== src/Upgrade/Download.antt =====
-- src/upgrade/download.rs: the fetches of the manifest and of the tarball, with their retries. What an
-- attempt meets is its input: a network error, or a status and a body; an attempt's body comes in
-- chunks. The HTTP client, SHA-256 and UTF-8 are parameters.
pub mod Attempts
pub mod Integrity
use bilbycast_gateway_sdk.Base.{
  ℕ, ◌+◌, ◌*◌, ◌%◌, ◌^◌, min, String, len, Bool, true, false, not, ◌&&◌, ◌||◌, Option, none, some,
  List, [], ◌∷◌, ◌++◌, ltb, leb, ◌==◌, if◌then◌else◌, length, str_eq, all_chars, is_ascii_hexdigit,
  eq_ignore_ascii_case, Result, ok, err, is_some,
}
use bilbycast_gateway_sdk.Upgrade.Manifest.{
  ParsedUrl, ManifestError, validate_url_host, redirect_host_allowed,
}

abbrev pub Bytes : Type 0
Bytes = List ℕ

abbrev pub max_manifest_bytes : ℕ
max_manifest_bytes = 1048576

abbrev pub max_tarball_bytes : ℕ
max_tarball_bytes = 536870912

abbrev pub attempts : List ℕ
attempts = 0 ∷ 1 ∷ 2 ∷ []

-- What an attempt meets: for a file, the body's announced length and its chunks, each of which may
-- fail to be read.
pub data Reply (Body : Type 0) : Type 0 where
  network_error : String → Reply Body
  answered : ℕ → Body → Reply Body

abbrev pub TextBody : Type 0
TextBody = Option Bytes

pub record FileBody : Type 0 where
  pub content_length : Option ℕ
  pub chunks : List (Option Bytes)

pub data FetchError : Type 0 where
  url_refused : ManifestError → FetchError
  not_a_digest client_unavailable : FetchError
  http_status : ℕ → FetchError
  network : String → FetchError
  body_unreadable too_large not_utf8 checksum_mismatch exhausted : FetchError

-- What a fetch does besides: its requests, and its sleeps in milliseconds.
pub data FetchStep : Type 0 where
  requested : FetchStep
  slept : ℕ → FetchStep

abbrev pub is_success : ℕ → Bool
is_success status = leb 200 status && leb status 299

unfoldable pub is_retryable_status : ℕ → Bool
is_retryable_status status = (leb 500 status && leb status 599) || status == 429 || status == 408

-- `checked_shl` of a `u64`.
unfoldable pub backoff : ℕ → ℕ
backoff attempt =
    min (if ltb attempt 64 then (250 * 2 ^ attempt) % 18446744073709551616 else 2000) 2000

-- `last_err.unwrap_or_else(..)`
abbrev pub last_error : Option FetchError → FetchError
last_error none = exhausted
last_error (some e) = e

-- Where a redirect is followed to. `host` is the URL's.
pub data Redirect : Type 0 where
  follow too_many_redirects not_https disallowed_host : Redirect

abbrev host_ok : Option String → Bool
host_ok none = false
host_ok (some host) = redirect_host_allowed host

unfoldable pub redirect_policy : ℕ → String → Option String → Redirect
redirect_policy previous scheme host =
    if leb 5 previous
    then too_many_redirects
    else if not (str_eq scheme "https")
    then not_https
    else if host_ok host
    then follow
    else disallowed_host

-- What an attempt makes of its reply: `read` the body of a success, which is the end, or go on with the
-- rest of the attempts, if there is a point in that.
unfoldable pub after_reply {ℓ} :
    {Body : Type 0} {A : Type ℓ}
    → (Body → Result FetchError A)
    → ℕ
    → (FetchError → Result FetchError A × List FetchStep)
    → Reply Body
    → Result FetchError A × List FetchStep
after_reply read a rest (network_error e) =
    let (r, steps) = rest (network e) in (r, requested ∷ slept (backoff a) ∷ steps)
after_reply read a rest (answered status body) =
    let (r, steps) = rest (http_status status) in
    if is_success status
    then (read body, requested ∷ [])
    else if is_retryable_status status
    then (r, requested ∷ slept (backoff a) ∷ steps)
    else (err (http_status status), requested ∷ [])

-- The loop over the attempts, with the last error.
unfoldable pub attempt_all {ℓ} :
    {Body : Type 0} {A : Type ℓ}
    → (Body → Result FetchError A)
    → (ℕ → Reply Body)
    → Option FetchError
    → List ℕ
    → Result FetchError A × List FetchStep
attempt_all read meets last [] = (err (last_error last), [])
attempt_all read meets last (a ∷ as') =
    after_reply read a (λ e. attempt_all read meets (some e) as') (meets a)

-- No announced length is no objection.
abbrev pub announced : Option ℕ → ℕ
announced none = 0
announced (some n) = n

module _ (parse_url : String → Option ParsedUrl) (from_utf8 : Bytes → Option String)
    (sha256_hex : Bytes → String) where
  unfoldable pub read_text : TextBody → Result FetchError String
  read_text none = err body_unreadable
  read_text (some bytes) =
      if ltb max_manifest_bytes (length bytes)
      then err too_large
      else elim (from_utf8 bytes) [ none ↦ err not_utf8 | some text ↦ ok text ]

  -- The chunks one after the other, onto what is there already.
  unfoldable pub read_chunks : Bytes → List (Option Bytes) → Result FetchError Bytes
  read_chunks buf [] = ok buf
  read_chunks buf (none ∷ chunks) = err body_unreadable
  read_chunks buf (some chunk ∷ chunks) =
      let rest = read_chunks (buf ++ chunk) chunks in
      if ltb max_tarball_bytes (length buf + length chunk) then err too_large else rest

  unfoldable pub read_file : String → FileBody → Result FetchError Bytes
  read_file expected body =
      let whole = read_chunks [] body.chunks in
      if ltb max_tarball_bytes (announced body.content_length) then err too_large else elim whole [
        | err e ↦ err e
        | ok buf ↦
            if eq_ignore_ascii_case (sha256_hex buf) expected then ok buf else err checksum_mismatch
      ]

  unfoldable pub fetch_text :
      Bool → String → (ℕ → Reply TextBody) → Result FetchError String × List FetchStep
  fetch_text client_builds url meets = elim (validate_url_host parse_url url) [
    | err e ↦ (err (url_refused e), [])
    | ok u ↦
        if client_builds
        then attempt_all read_text meets none attempts
        else (err client_unavailable, [])
  ]

  unfoldable pub fetch_with_sha256 :
      Bool → String → String → (ℕ → Reply FileBody) → Result FetchError Bytes × List FetchStep
  fetch_with_sha256 client_builds url expected meets = elim (validate_url_host parse_url url) [
    | err e ↦ (err (url_refused e), [])
    | ok u ↦
        if not (len expected == 64) || not (all_chars is_ascii_hexdigit expected)
        then (err not_a_digest, [])
        else if client_builds
        then attempt_all (read_file expected) meets none attempts
        else (err client_unavailable, [])
  ]
