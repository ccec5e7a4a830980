-- ===== src/Upgrade/Download/Integrity.antt =====
-- src/upgrade/download.rs, `fetch_text` and `fetch_with_sha256`: what they return, and what it takes them.
use mathlib.Core.List.{append_assoc, append-nil}
use bilbycast_gateway_sdk.Base.{
  ℕ, ◌+◌, ◌≤◌, String, len, Bool, true, not, ◌||◌, ◌==◌, ◌≡◌, err≢ok, ok-injective, subst, refl,
  sym, ap, ◌∙◌, inl, inr, Option, none, some, List, [], ◌∷◌, ◌++◌, arith, Bool-cases, Result-cases,
  Result, ok, err, length, length-append, ltb, all_chars, is_ascii_hexdigit, eq_ignore_ascii_case,
}
use bilbycast_gateway_sdk.Upgrade.Manifest.{ParsedUrl, validate_url_host}
use bilbycast_gateway_sdk.Upgrade.Download.{
  Bytes, Reply, answered, TextBody, FileBody, FetchError, FetchStep, is_success, attempt_all,
  attempts, fetch_text, fetch_with_sha256, read_chunks, read_file, max_tarball_bytes, backoff,
  announced,
}
use bilbycast_gateway_sdk.Upgrade.Download.Attempts.{requests, time_slept, attempt_all-Tried}

-- The body that the chunks make up, if each of them was read.
abbrev pub all_read : List (Option Bytes) → Option Bytes
all_read [] = some []
all_read (none ∷ chunks) = none
all_read (some chunk ∷ chunks) = elim (all_read chunks) [
  | none ↦ none
  | some rest ↦ some (chunk ++ rest)
]

module _ (parse_url : String → Option ParsedUrl) (from_utf8 : Bytes → Option String)
    (sha256_hex : Bytes → String) where
  read_chunks-all_read :
      (buf : Bytes) (chunks : List (Option Bytes)) (bytes : Bytes)
      → length buf ≤ max_tarball_bytes
      → read_chunks parse_url from_utf8 sha256_hex buf chunks ≡ ok bytes
      → (rest : Bytes) × (all_read chunks ≡ some rest)
        × (bytes ≡ buf ++ rest)
        × (length bytes ≤ max_tarball_bytes)
  unfolding read_chunks
  read_chunks-all_read buf [] bytes small h =
      let same : bytes ≡ buf ++ [] = sym (ok-injective refl h) ∙ sym (append-nil buf) in
      ([], refl, same, subst (λ b. length b ≤ max_tarball_bytes) (ok-injective refl h) small)
  read_chunks-all_read buf (none ∷ chunks) bytes small h = absurd (err≢ok h)
  read_chunks-all_read buf (some chunk ∷ chunks) bytes small h =
      elim (Bool-cases (ltb max_tarball_bytes (length buf + length chunk))) [
        | inl e ↦ absurd (err≢ok (simp e at h))
        | inr e ↦
            let (rest, read, same, fits) =
              read_chunks-all_read (buf ++ chunk) chunks bytes
                (ground (arith, length-append buf chunk, e)) (simp e at h) in
            (chunk ++ rest, rw read refl, same ∙ append_assoc buf chunk rest, fits)
      ]

  read_file-all_read :
      (expected : String) (body : FileBody) (bytes : Bytes)
      → read_file parse_url from_utf8 sha256_hex expected body ≡ ok bytes
      → (all_read body.chunks ≡ some bytes)
        × (length bytes ≤ max_tarball_bytes)
        × (eq_ignore_ascii_case (sha256_hex bytes) expected ≡ true)
  unfolding read_file
  read_file-all_read expected body bytes h =
      elim (Bool-cases (ltb max_tarball_bytes (announced body.content_length))) [
        | inl e ↦ absurd (err≢ok (simp e at h))
        | inr e ↦ elim (Result-cases (read_chunks parse_url from_utf8 sha256_hex [] body.chunks)) [
          | inr (x, e') ↦ absurd (err≢ok (simp (e, e') at h))
          | inl (buf, e') ↦ elim (Bool-cases (eq_ignore_ascii_case (sha256_hex buf) expected)) [
            | inr e'' ↦ absurd (err≢ok (simp (e, e', e'') at h))
            | inl e'' ↦
                let got = simp (e, e', e'') at h in
                let is_buf : buf ≡ bytes = ok-injective refl got in
                let (rest, read, same, fits) =
                  read_chunks-all_read [] body.chunks buf (omega arith) e' in
                (
                  read ∙ ap some (sym same ∙ is_buf),
                  subst (λ b. length b ≤ max_tarball_bytes) is_buf fits,
                  subst (λ b. eq_ignore_ascii_case (sha256_hex b) expected ≡ true) is_buf e'',
                )
          ]
        ]
      ]

  -- What `fetch_with_sha256` returns is the whole body of an answer with a success: the chunks, each of
  -- which was read, at most 512 MiB together, with the SHA-256 that is expected (which is one of 64 hex
  -- digits), from a URL that the whitelist lets through.
  pub fetch_with_sha256-Fetched :
      (client_builds : Bool) (url expected : String) (meets : ℕ → Reply FileBody) (bytes : Bytes)
      → (fetch_with_sha256 parse_url from_utf8 sha256_hex client_builds url expected meets).0
        ≡ ok bytes
      → (validate_url_host parse_url url ≡ ok tt)
        × (len expected ≡ 64)
        × (all_chars is_ascii_hexdigit expected ≡ true)
        × (eq_ignore_ascii_case (sha256_hex bytes) expected ≡ true)
        × (length bytes ≤ 536870912)
        × ((attempt status : ℕ) × (body : FileBody) × (meets attempt ≡ answered status body)
            × (is_success status ≡ true)
            × (all_read body.chunks ≡ some bytes))
  unfolding fetch_with_sha256
  fetch_with_sha256-Fetched client_builds url expected meets bytes h =
      elim (Result-cases (validate_url_host parse_url url)) [
        | inr (x, e) ↦ absurd (err≢ok (simp (e, fetch_with_sha256) at h))
        | inl (u, e) ↦
            elim (Bool-cases
              (not (len expected == 64) || not (all_chars is_ascii_hexdigit expected))) [
                | inl e' ↦ absurd (err≢ok (simp (e, e', fetch_with_sha256) at h))
                | inr e' ↦ elim (Bool-cases client_builds) [
                  | inr e'' ↦ absurd (err≢ok (simp (e, e', e'', fetch_with_sha256) at h))
                  | inl e'' ↦
                      let v =
                        (attempt_all-Tried (read_file parse_url from_utf8 sha256_hex expected) meets
                            none attempts).from
                          bytes (simp (e, e', e'', fetch_with_sha256) at h) in
                      let (whole, fits, digest) =
                        read_file-all_read expected v.body bytes v.reads in
                      (
                        e,
                        ground (arith, e'),
                        ground (arith, e'),
                        digest,
                        fits,
                        (v.attempt, v.status, v.body, v.reply, v.success, whole),
                      )
                ]
              ]
      ]

  record Ends {A : Type 0} (o : Result FetchError A × List FetchStep) : Type 0 where
    few : requests o.1 ≤ 3
    short : time_slept o.1 ≤ 1750

  attempt_all-Ends :
      {Body A : Type 0} (read : Body → Result FetchError A) (meets : ℕ → Reply Body)
      → Ends (attempt_all read meets none attempts)
  unfolding backoff
  attempt_all-Ends read meets =
      let v = attempt_all-Tried read meets none attempts in record { few = v.few; short = v.short }

  nothing-Ends : {A : Type 0} (e : FetchError) → Ends {A = A} (err e, [])
  nothing-Ends e = record { few = omega arith; short = omega arith }

  fetch_text-Ends :
      (client_builds : Bool) (url : String) (meets : ℕ → Reply TextBody)
      → Ends (fetch_text parse_url from_utf8 sha256_hex client_builds url meets)
  unfolding fetch_text
  fetch_text-Ends client_builds url meets = elim (Result-cases (validate_url_host parse_url url)) [
    | inr (x, e) ↦ rw (e, fetch_text) (nothing-Ends _)
    | inl (u, e) ↦ elim (Bool-cases client_builds) [
      | inl e' ↦ rw (e, e', fetch_text) (attempt_all-Ends _ meets)
      | inr e' ↦ rw (e, e', fetch_text) (nothing-Ends _)
    ]
  ]

  fetch_with_sha256-Ends :
      (client_builds : Bool) (url expected : String) (meets : ℕ → Reply FileBody)
      → Ends (fetch_with_sha256 parse_url from_utf8 sha256_hex client_builds url expected meets)
  unfolding fetch_with_sha256
  fetch_with_sha256-Ends client_builds url expected meets =
      elim (Result-cases (validate_url_host parse_url url)) [
        | inr (x, e) ↦ rw (e, fetch_with_sha256) (nothing-Ends _)
        | inl (u, e) ↦
            elim (Bool-cases
              (not (len expected == 64) || not (all_chars is_ascii_hexdigit expected))) [
                | inl e'' ↦ rw (e, e'', fetch_with_sha256) (nothing-Ends _)
                | inr e'' ↦ elim (Bool-cases client_builds) [
                  | inl e' ↦ rw (e, e'', e', fetch_with_sha256) (attempt_all-Ends _ meets)
                  | inr e' ↦ rw (e, e'', e', fetch_with_sha256) (nothing-Ends _)
                ]
              ]
      ]

  -- Whatever the network does, a fetch ends after at most three requests and 1.75 s of sleep between
  -- them.
  pub fetches-end :
      (client_builds : Bool) (url expected : String) (texts : ℕ → Reply TextBody)
      (files : ℕ → Reply FileBody)
      → (requests (fetch_text parse_url from_utf8 sha256_hex client_builds url texts).1 ≤ 3)
        × (time_slept (fetch_text parse_url from_utf8 sha256_hex client_builds url texts).1 ≤ 1750)
        × (requests
              (fetch_with_sha256 parse_url from_utf8 sha256_hex client_builds url expected files).1
            ≤ 3)
        × (time_slept
              (fetch_with_sha256 parse_url from_utf8 sha256_hex client_builds url expected files).1
            ≤ 1750)
  fetches-end client_builds url expected texts files =
      let a = fetch_text-Ends client_builds url texts in
      let b = fetch_with_sha256-Ends client_builds url expected files in
      (a.few, a.short, b.few, b.short)
