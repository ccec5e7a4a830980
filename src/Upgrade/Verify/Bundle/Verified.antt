-- ===== src/Upgrade/Verify/Bundle/Verified.antt =====
-- src/upgrade/verify.rs, `verify_manifest_bundle`: what holds of a manifest and its bundle when they pass.
use bilbycast_gateway_sdk.Base.{
  ◌≡◌, ◌≢◌, ap, ap₂, ◌==◌, refl, inl, inr, ◌∙◌, String, true, false, not, Option, some, List, [],
  ◌∷◌, arith, Bool-cases, Result, ok, err, >>=-ok_then, not_refused_then, ok_or-ok_then,
  refuse_if-eq-ok, eq_ignore_ascii_case,
}
use bilbycast_gateway_sdk.Json.{Json}
use bilbycast_gateway_sdk.Upgrade.Signers.{AllowedSigner, CertIdentity, identity_matches_allowlist}
use bilbycast_gateway_sdk.Upgrade.Verify.{
  Bytes, ecdsa_p256_sha256_asn1, RekorBundle, CosignBundle, TrustRoot, Crates, CheckError,
  VerifyError, sigstore_failed, claims_unreadable, blob_unverified,
}
use bilbycast_gateway_sdk.Upgrade.Verify.Pem.{pem_to_der, sha256_hex}
use bilbycast_gateway_sdk.Upgrade.Verify.Claims.{extract_identity_claims}
use bilbycast_gateway_sdk.Upgrade.Verify.Bundle.{
  context, bytes_eq, is_empty, canonical, str_at, read_body, verify_rekor_body_binding,
  verify_cert_and_rekor, verify_manifest_bundle,
}
use bilbycast_gateway_sdk.Upgrade.Verify.Bundle.Checked.{
  Some, Within, Signs, Issued, verify_cert_chain-Issued, verify_validity_window-Within,
  verify_rekor_set-Signs, verify_blob_signature-Signs,
}

bytes_eq→eq : (a b : Bytes) → bytes_eq a b ≡ true → a ≡ b
bytes_eq→eq [] [] h = refl
bytes_eq→eq [] (y ∷ b) h = absurd (ground (arith, h))
bytes_eq→eq (x ∷ a) [] h = absurd (ground (arith, h))
bytes_eq→eq (x ∷ a) (y ∷ b) h = elim (Bool-cases (x == y)) [
  | inl e ↦ ap₂ ◌∷◌ (ground (arith, e)) (bytes_eq→eq a b (ground (arith, e, h)))
  | inr e ↦ absurd (ground (arith, e, h))
]

is_empty-cons : (l : List AllowedSigner) → is_empty l ≡ false → l ≢ []
is_empty-cons [] h = absurd (ground (arith, h))
is_empty-cons (x ∷ l) h = λ e. absurd (ground (arith, ap is_empty e))

module _ (k : Crates) (j : Json) where
  open k use {
    base64_decode, from_utf8, trust_root, parse_bundle, Certificate, certificate_from_der, spki_der,
    not_before, not_after,
  }
  open j use {Value}

  -- The entry's body holds the digest of the manifest, and the certificate.
  pub record Binds (body : String) (manifest_bytes leaf_der : Bytes) : Type 0 where
    pub entry : Value
    pub reads : read_body k j body ≡ ok entry
    pub entry_hash : String
    pub has_hash : str_at k j entry ("spec" ∷ "data" ∷ "hash" ∷ []) "value" ≡ some entry_hash
    pub same_hash : eq_ignore_ascii_case entry_hash (sha256_hex k manifest_bytes) ≡ true
    pub content : String
    pub has_content :
        str_at k j entry ("spec" ∷ "signature" ∷ "publicKey" ∷ []) "content" ≡ some content
    pub pem_bytes : Bytes
    pub decoded : base64_decode content ≡ some pem_bytes
    pub pem : String
    pub is_text : from_utf8 pem_bytes ≡ some pem
    pub same_certificate : pem_to_der k pem ≡ ok leaf_der

  verify_rekor_body_binding-Binds :
      (body : String) (manifest_bytes leaf_der : Bytes)
      → verify_rekor_body_binding k j body manifest_bytes leaf_der ≡ ok tt
      → Binds body manifest_bytes leaf_der
  unfolding verify_rekor_body_binding
  verify_rekor_body_binding-Binds body manifest_bytes leaf_der h =
      >>=-ok_then (read_body k j body) _ h (λ entry h1 r1. ok_or-ok_then _ _ _ r1 (λ hash h2 r2.
        not_refused_then (not (eq_ignore_ascii_case hash (sha256_hex k manifest_bytes))) _ _ r2
          (λ h3 r3. ok_or-ok_then _ _ _ r3 (λ content h4 r4. ok_or-ok_then _ _ _ r4 (λ bytes h5 r5.
            ok_or-ok_then _ _ _ r5 (λ pem h6 r6. >>=-ok_then (pem_to_der k pem) _ r6 (λ der h7 r7.
              record {
                entry = entry;
                reads = h1;
                entry_hash = hash;
                has_hash = h2;
                same_hash = ground (arith, h3);
                content = content;
                has_content = h4;
                pem_bytes = bytes;
                decoded = h5;
                pem = pem;
                is_text = h6;
                same_certificate =
                    h7
                    ∙ ap ok (
                        bytes_eq→eq der leaf_der
                          (ground (arith, refuse_if-eq-ok (not (bytes_eq der leaf_der)) _ r7)));
              })))))))

  -- The certificate that has signed the manifest, and what vouches for it.
  pub record Vouched (cert_pem : String) (manifest_bytes : Bytes) (rekor : RekorBundle)
      : Type 0 where
    pub leaf_der : Bytes
    pub is_der : pem_to_der k cert_pem ≡ ok leaf_der
    pub leaf : Certificate
    pub is_leaf : certificate_from_der leaf_der ≡ some leaf
    pub root : TrustRoot
    pub is_root : trust_root ≡ some root
    pub fulcio_certs : List Bytes
    pub has_certs : root.fulcio_certs ≡ some fulcio_certs
    pub rekor_keys : List Bytes
    pub has_keys : root.rekor_keys ≡ some rekor_keys
    pub issued : Some (Issued k leaf) fulcio_certs
    pub in_time : Within (not_before leaf) rekor.payload.integrated_time (not_after leaf)
    pub binds : Binds rekor.payload.body manifest_bytes leaf_der
    pub timestamp : Bytes
    pub is_timestamp : base64_decode rekor.signed_entry_timestamp ≡ some timestamp
    pub logged :
        Some (Signs k ecdsa_p256_sha256_asn1 timestamp (canonical k rekor.payload)) rekor_keys

  verify_cert_and_rekor-Vouched :
      (cert_pem : String) (manifest_bytes : Bytes) (rekor_bundle : Option RekorBundle)
      → verify_cert_and_rekor k j cert_pem manifest_bytes rekor_bundle ≡ ok tt
      → (rekor : RekorBundle) × (rekor_bundle ≡ some rekor) × Vouched cert_pem manifest_bytes rekor
  unfolding verify_cert_and_rekor
  verify_cert_and_rekor-Vouched cert_pem manifest_bytes rekor_bundle h =
      ok_or-ok_then _ _ _ h (λ root h1 r1. ok_or-ok_then _ _ _ r1 (λ certs h2 r2.
        ok_or-ok_then _ _ _ r2 (λ keys h3 r3. ok_or-ok_then _ _ _ r3 (λ rekor h4 r4.
          >>=-ok_then _ _ r4 (λ der h5 r5. >>=-ok_then _ _ r5 (λ u h6 r6.
            >>=-ok_then _ _ r6 (λ u h7 r7. >>=-ok_then _ _ r7 (λ u h8 r8.
              let (leaf, is_leaf, issued) = verify_cert_chain-Issued k der certs h6 in
              let (ts, is_ts, logged) = verify_rekor_set-Signs k rekor keys r8 in
              (
                rekor,
                h4,
                record {
                  leaf_der = der;
                  is_der = h5;
                  leaf = leaf;
                  is_leaf = is_leaf;
                  root = root;
                  is_root = h1;
                  fulcio_certs = certs;
                  has_certs = h2;
                  rekor_keys = keys;
                  has_keys = h3;
                  issued = issued;
                  in_time =
                      verify_validity_window-Within k der rekor.payload.integrated_time leaf is_leaf
                        h7;
                  binds = verify_rekor_body_binding-Binds rekor.payload.body manifest_bytes der h8;
                  timestamp = ts;
                  is_timestamp = is_ts;
                  logged = logged;
                },
              )))))))))

  pub record IsVerified (manifest_bytes bundle_bytes : Bytes) (allowed_signers : List AllowedSigner)
      : Type 0 where
    pub not_empty : allowed_signers ≢ []
    pub bundle : CosignBundle
    pub parsed : parse_bundle bundle_bytes ≡ some bundle
    pub cert_pem : String
    pub has_cert : bundle.cert ≡ some cert_pem
    pub rekor : RekorBundle
    pub has_rekor : bundle.rekor_bundle ≡ some rekor
    pub vouched : Vouched cert_pem manifest_bytes rekor
    pub identity : CertIdentity
    pub claims : extract_identity_claims k cert_pem ≡ ok identity
    pub allowed : identity_matches_allowlist identity allowed_signers ≡ true
    pub signature_b64 : String
    pub has_signature : bundle.base64_signature ≡ some signature_b64
    pub signature : Bytes
    pub is_signature : base64_decode signature_b64 ≡ some signature
    pub spki : Bytes
    pub is_spki : spki_der vouched.leaf ≡ some spki
    pub signs : Signs k ecdsa_p256_sha256_asn1 signature manifest_bytes spki

  context-ok :
      {A : Type 0} (f : CheckError → VerifyError) (m : Result CheckError A) (a : A)
      → context f m ≡ ok a
      → m ≡ ok a
  context-ok f (ok b) a h = cc
  context-ok f (err e) a h = cc

  -- A manifest and its bundle pass only if the allowlist is not empty, and the bundle has a
  -- certificate, a signature and a Rekor entry such that: a Fulcio certificate of the trust root has
  -- signed the certificate; the time of the entry is in the certificate's validity; the entry holds
  -- the SHA-256 of this manifest and this certificate; a Rekor key of the trust root has signed the
  -- entry; the certificate's identity is on the allowlist; and the key of this same certificate has
  -- signed this manifest.
  pub verify_manifest_bundle-IsVerified :
      (manifest_bytes bundle_bytes : Bytes) (allowed_signers : List AllowedSigner)
      → verify_manifest_bundle k j manifest_bytes bundle_bytes allowed_signers ≡ ok tt
      → IsVerified manifest_bytes bundle_bytes allowed_signers
  unfolding verify_manifest_bundle
  verify_manifest_bundle-IsVerified manifest_bytes bundle_bytes allowed_signers h =
      not_refused_then _ _ _ h (λ h1 r1. ok_or-ok_then _ _ _ r1 (λ bundle h2 r2.
        ok_or-ok_then _ _ _ r2 (λ cert_pem h3 r3. ok_or-ok_then _ _ _ r3 (λ signature_b64 h4 r4.
          >>=-ok_then _ _ r4 (λ u h5 r5. >>=-ok_then _ _ r5 (λ identity h6 r6.
            not_refused_then _ _ _ r6 (λ h7 r7.
              let (rekor, has_rekor, v) =
                verify_cert_and_rekor-Vouched cert_pem manifest_bytes bundle.rekor_bundle
                  (context-ok sigstore_failed _ tt h5) in
              let (sig, is_sig, (spki, is_spki, signs)) =
                verify_blob_signature-Signs k cert_pem signature_b64 manifest_bytes v.leaf_der
                  v.leaf v.is_der v.is_leaf (context-ok blob_unverified _ tt r7) in
              record {
                not_empty = is_empty-cons allowed_signers h1;
                bundle = bundle;
                parsed = h2;
                cert_pem = cert_pem;
                has_cert = h3;
                rekor = rekor;
                has_rekor = has_rekor;
                vouched = v;
                identity = identity;
                claims = context-ok claims_unreadable _ identity h6;
                allowed = ground (arith, h7);
                signature_b64 = signature_b64;
                has_signature = h4;
                signature = sig;
                is_signature = is_sig;
                spki = spki;
                is_spki = is_spki;
                signs = signs;
              })))))))
