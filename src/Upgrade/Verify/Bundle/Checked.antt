-- ===== src/Upgrade/Verify/Bundle/Checked.antt =====
-- src/upgrade/verify.rs: what holds when a chain, a validity, a timestamp and a signature are accepted.
use bilbycast_gateway_sdk.Base.{
  ℕ, ◌≤◌, ◌≡◌, ◌⊎◌, inl, inr, String, Bool, true, false, ◌||◌, some, List, [], ◌∷◌, arith,
  Bool-cases, Option-cases, ok, >>=-ok_then, ok_or-ok_then, refuse_if-eq-ok,
}
use bilbycast_gateway_sdk.Upgrade.Verify.{
  Bytes, ℤ, pos, negsuc, SigningScheme, ecdsa_p256_sha256_asn1, RekorBundle, Crates,
}
use bilbycast_gateway_sdk.Upgrade.Verify.Pem.{pem_to_der}
use bilbycast_gateway_sdk.Upgrade.Verify.Bundle.{
  scheme_for_oid, is_before, is_after, key_verifies, ca_verifies, any_verifies, verify_cert_chain,
  verify_validity_window, canonical, verify_rekor_set, verify_blob_signature,
}

abbrev pub Some {ℓ} : {A : Type ℓ} → (A → Type 0) → List A → Type 0
Some P [] = ⊥
Some P (x ∷ xs) = P x ⊎ Some P xs

-- `nb ≤ t ≤ na`
abbrev pub Within : ℕ → ℤ → ℕ → Type 0
Within nb (pos t) na = (nb ≤ t) × (t ≤ na)
Within nb (negsuc t) na = ⊥

module _ (k : Crates) where
  open k use {
    base64_decode, from_utf8, trust_root, parse_bundle, Certificate, certificate_from_der, tbs_der,
    signature, signature_oid, spki_der, not_before, not_after, key_from_der, verify_signature,
  }

  -- The key of a public key's DER verifies `sig` over `message`.
  pub record Signs (scheme : SigningScheme) (sig message spki : Bytes) : Type 0 where
    pub key : k.Key
    pub loads : key_from_der spki scheme ≡ some key
    pub verifies : verify_signature key sig message ≡ true

  -- The certificate of `ca_der` has signed `leaf`.
  pub record Issued (leaf : Certificate) (ca_der : Bytes) : Type 0 where
    pub ca : Certificate
    pub ca_parses : certificate_from_der ca_der ≡ some ca
    pub spki : Bytes
    pub ca_key : spki_der ca ≡ some spki
    pub tbs : Bytes
    pub is_tbs : tbs_der leaf ≡ some tbs
    pub sig : Bytes
    pub is_sig : signature leaf ≡ some sig
    pub scheme : SigningScheme
    pub is_scheme : scheme_for_oid (signature_oid leaf) ≡ ok scheme
    pub signs : Signs scheme sig tbs spki

  key_verifies-Signs :
      (scheme : SigningScheme) (sig message spki : Bytes)
      → key_verifies k scheme sig message spki ≡ true
      → Signs scheme sig message spki
  unfolding key_verifies
  key_verifies-Signs scheme sig message spki h = elim (Option-cases (key_from_der spki scheme)) [
    | inl e ↦ absurd (ground (arith, e, h))
    | inr (key, e) ↦ record { key = key; loads = e; verifies = simp (e, key_verifies) at h }
  ]

  any_verifies-Some :
      (P : Bytes → Type 0) (verifies : Bytes → Bool) (ders : List Bytes)
      → ((der : Bytes) → verifies der ≡ true → P der)
      → any_verifies k verifies ders ≡ true
      → Some P ders
  unfolding any_verifies
  any_verifies-Some P verifies [] f h = absurd (ground (arith, h))
  any_verifies-Some P verifies (der ∷ ders) f h = elim (Bool-cases (verifies der)) [
    | inl e ↦ inl (f der e)
    | inr e ↦ inr (any_verifies-Some P verifies ders f (ground (arith, e, h)))
  ]

  ca_verifies-Issued :
      (leaf : Certificate) (tbs sig : Bytes) (scheme : SigningScheme) (ca_der : Bytes)
      → tbs_der leaf ≡ some tbs
      → signature leaf ≡ some sig
      → scheme_for_oid (signature_oid leaf) ≡ ok scheme
      → ca_verifies k scheme sig tbs ca_der ≡ true
      → Issued leaf ca_der
  unfolding ca_verifies
  ca_verifies-Issued leaf tbs sig scheme ca_der e1 e2 e3 h =
      elim (Option-cases (certificate_from_der ca_der)) [
        | inl e ↦ absurd (ground (arith, e, h))
        | inr (ca, e) ↦ elim (Option-cases (spki_der ca)) [
          | inl e' ↦ absurd (ground (arith, e, e', h))
          | inr (spki, e') ↦ record {
            ca = ca;
            ca_parses = e;
            spki = spki;
            ca_key = e';
            tbs = tbs;
            is_tbs = e1;
            sig = sig;
            is_sig = e2;
            scheme = scheme;
            is_scheme = e3;
            signs = key_verifies-Signs scheme sig tbs spki (simp (e, e', ca_verifies) at h);
          }
        ]
      ]

  pub verify_cert_chain-Issued :
      (leaf_der : Bytes) (certs : List Bytes)
      → verify_cert_chain k leaf_der certs ≡ ok tt
      → (leaf : Certificate) × (certificate_from_der leaf_der ≡ some leaf)
        × Some (Issued leaf) certs
  unfolding verify_cert_chain
  verify_cert_chain-Issued leaf_der certs h = ok_or-ok_then _ _ _ h (λ leaf h1 r1.
      ok_or-ok_then _ _ _ r1 (λ tbs h2 r2. ok_or-ok_then _ _ _ r2 (λ sig h3 r3.
        >>=-ok_then _ _ r3 (λ scheme h4 r4. (
          leaf,
          h1,
          any_verifies-Some (Issued leaf) (ca_verifies k scheme sig tbs) certs
              (λ der e. ca_verifies-Issued leaf tbs sig scheme der h2 h3 h4 e)
              (ground (arith, refuse_if-eq-ok _ _ r4)),
        )))))

  in_window : (t : ℤ) (nb na : ℕ) → (is_before t nb || is_after t na) ≡ false → Within nb t na
  in_window (pos t) nb na h = ground (arith, h)
  in_window (negsuc t) nb na h = ground (arith, h)

  pub verify_validity_window-Within :
      (leaf_der : Bytes) (t : ℤ) (leaf : Certificate)
      → certificate_from_der leaf_der ≡ some leaf
      → verify_validity_window k leaf_der t ≡ ok tt
      → Within (not_before leaf) t (not_after leaf)
  unfolding verify_validity_window
  verify_validity_window-Within leaf_der t leaf e h =
      in_window t (not_before leaf) (not_after leaf)
        (refuse_if-eq-ok _ _ (simp (e, verify_validity_window) at h))

  pub verify_rekor_set-Signs :
      (rekor : RekorBundle) (keys : List Bytes)
      → verify_rekor_set k rekor keys ≡ ok tt
      → (sig : Bytes) × (base64_decode rekor.signed_entry_timestamp ≡ some sig)
        × Some (Signs ecdsa_p256_sha256_asn1 sig (canonical k rekor.payload)) keys
  unfolding verify_rekor_set
  verify_rekor_set-Signs rekor keys h = ok_or-ok_then _ _ _ h (λ sig h1 r1. (
    sig,
    h1,
    any_verifies-Some _ _ keys (λ der e. key_verifies-Signs _ sig _ der e)
        (ground (arith, refuse_if-eq-ok _ _ r1)),
  ))

  pub verify_blob_signature-Signs :
      (cert_pem signature_b64 : String) (blob cert_der : Bytes) (cert : Certificate)
      → pem_to_der k cert_pem ≡ ok cert_der
      → certificate_from_der cert_der ≡ some cert
      → verify_blob_signature k cert_pem signature_b64 blob ≡ ok tt
      → (sig : Bytes) × (base64_decode signature_b64 ≡ some sig)
        × ((spki : Bytes) × (spki_der cert ≡ some spki)
            × Signs ecdsa_p256_sha256_asn1 sig blob spki)
  unfolding verify_blob_signature
  verify_blob_signature-Signs cert_pem signature_b64 blob cert_der cert e1 e2 h =
      ok_or-ok_then _ _ _ h (λ sig h1 r1. ok_or-ok_then _ _ _ (simp (e1, e2) at r1) (λ spki h2 r2.
        ok_or-ok_then _ _ _ r2 (λ key h3 r3. (
          sig,
          h1,
          (
            spki,
            h2,
            record { key = key; loads = h3; verifies = ground (arith, refuse_if-eq-ok _ _ r3) },
          ),
        ))))
