-- ===== src/Upgrade/Signers/Identity.antt =====
-- src/upgrade/verify.rs, `identity_matches_allowlist`: the four claims of a certificate must all be those
-- of one allowed signer.
use text.Mathlib.TextEquality.{starts_with_iff}
use text.Mathlib.TextLemmas.{append_cancel_right}
use bilbycast_gateway_sdk.Base.{
  ◌≡◌, refl, ap, ◌∙◌, sym, ◌↔◌, ◌⊎◌, inl, inr, String, append, true, false, some, List, [], ◌∷◌,
  arith, eq_iff, starts_with, ends_with, ends_with_iff, strip_prefix, strip_suffix,
  strip_prefix-append, strip_suffix-append, strip_suffix-none, Option-cases, Bool-cases,
}
use bilbycast_gateway_sdk.Upgrade.Signers.{
  AllowedSigner, CertIdentity, ref_matches, workflow_matches, signer_matches,
  identity_matches_allowlist,
}

-- The ref begins with the pattern's text before a final `*`, or is the pattern if that has none.
abbrev pub RefMatches : String → String → Type 0
RefMatches pattern ref =
    ((stem : String) × (rest : String) × (pattern ≡ append stem "*") × (ref ≡ append stem rest))
    ⊎ ((ends_with pattern "*" ≡ false) × (pattern ≡ ref))

ref_matches_sound : (pattern ref : String) → ref_matches pattern ref ≡ true → RefMatches pattern ref
unfolding ref_matches
ref_matches_sound pattern ref h = elim (Option-cases (strip_suffix pattern "*")) [
  | inl e ↦
      let same : pattern ≡ ref = (eq_iff pattern ref).0 (ground (arith, e, h)) in
      inr (strip_suffix-none pattern "*" e, same)
  | inr p ↦
      let (rest, begins) = (starts_with_iff ref p.0).0 (ground (arith, p.1, h)) in
      inl (p.0, rest, strip_suffix-append pattern "*" p.0 p.1, sym begins)
]

ref_matches_complete :
    (pattern ref : String) → RefMatches pattern ref → ref_matches pattern ref ≡ true
unfolding ref_matches
ref_matches_complete pattern ref (inl (stem, rest, is_glob, begins)) =
    elim (Option-cases (strip_suffix pattern "*")) [
      | inl e ↦
          let star : ends_with pattern "*" ≡ true = (ends_with_iff pattern "*").1 (stem, is_glob) in
          absurd (ground (arith, star, strip_suffix-none pattern "*" e))
      | inr p ↦
          let same : stem ≡ p.0 =
            append_cancel_right stem p.0 "*"
              (sym is_glob ∙ strip_suffix-append pattern "*" p.0 p.1) in
          let prefix : starts_with ref p.0 ≡ true =
            (starts_with_iff ref p.0).1 (rest, ap (λ q. append q rest) (sym same) ∙ sym begins) in
          ground (arith, p.1, prefix)
    ]
ref_matches_complete pattern ref (inr (plain, same)) =
    elim (Option-cases (strip_suffix pattern "*")) [
      | inl e ↦ ground (arith, e, (eq_iff pattern ref).1 same)
      | inr p ↦
          let star : ends_with pattern "*" ≡ true =
            (ends_with_iff pattern "*").1 (p.0, strip_suffix-append pattern "*" p.0 p.1) in
          absurd (ground (arith, star, plain))
    ]

workflow_matches_iff :
    (uri workflow : String)
    → (workflow_matches uri workflow ≡ true)
      ↔ ((ref : String) × (uri ≡ append workflow (append "@" ref)))
unfolding workflow_matches
workflow_matches_iff uri workflow = (
  λ h. elim (Option-cases (strip_prefix uri workflow)) [
    | inl e ↦ absurd (ground (arith, e, h))
    | inr p ↦
        let (ref, begins) = (starts_with_iff p.0 "@").0 (ground (arith, p.1, h)) in
        (ref, (strip_prefix-append uri workflow p.0).0 p.1 ∙ ap (append workflow) (sym begins))
  ],
  λ h.
      (let found : strip_prefix uri workflow ≡ some (append "@" h.0) =
          (strip_prefix-append uri workflow (append "@" h.0)).1 h.1 in
        let begins : starts_with (append "@" h.0) "@" ≡ true =
          (starts_with_iff (append "@" h.0) "@").1 (h.0, refl) in
        ground (arith, found, begins)),
)

-- The certificate is one of the signer's.
pub record IsSignedBy (c : CertIdentity) (s : AllowedSigner) : Type 0 where
  pub issuer : c.issuer ≡ some s.issuer
  pub repo : c.repo ≡ some s.repo
  pub ref_of_uri : String
  pub workflow : c.workflow_uri ≡ some (append s.workflow (append "@" ref_of_uri))
  pub ref : String
  pub has_ref : c.ref_claim ≡ some ref
  pub ref_allowed : RefMatches s.ref_pattern ref

signer_sound :
    (c : CertIdentity) (s : AllowedSigner)
    → signer_matches c.issuer c.repo c.workflow_uri c.ref_claim s ≡ true
    → IsSignedBy c s
unfolding signer_matches
signer_sound c s h = elim (Option-cases c.issuer) [
  | inl e ↦ absurd (ground (arith, e, h))
  | inr i ↦ elim (Option-cases c.repo) [
    | inl e ↦ absurd (ground (arith, i.1, e, h))
    | inr r ↦ elim (Option-cases c.workflow_uri) [
      | inl e ↦ absurd (ground (arith, i.1, r.1, e, h))
      | inr w ↦ elim (Option-cases c.ref_claim) [
        | inl e ↦ absurd (ground (arith, i.1, r.1, w.1, e, h))
        | inr f ↦
            let flow =
              (workflow_matches_iff w.0 s.workflow).0 (ground (arith, i.1, r.1, w.1, f.1, h)) in
            record {
              issuer =
                  i.1 ∙ ap some ((eq_iff i.0 s.issuer).0 (ground (arith, i.1, r.1, w.1, f.1, h)));
              repo = r.1 ∙ ap some ((eq_iff r.0 s.repo).0 (ground (arith, i.1, r.1, w.1, f.1, h)));
              ref_of_uri = flow.0;
              workflow = w.1 ∙ ap some flow.1;
              ref = f.0;
              has_ref = f.1;
              ref_allowed =
                  ref_matches_sound s.ref_pattern f.0 (ground (arith, i.1, r.1, w.1, f.1, h));
            }
      ]
    ]
  ]
]

signer_complete :
    (c : CertIdentity) (s : AllowedSigner)
    → IsSignedBy c s
    → signer_matches c.issuer c.repo c.workflow_uri c.ref_claim s ≡ true
unfolding signer_matches
signer_complete c s v =
    simp (v.issuer, v.repo, v.workflow, v.has_ref)
      (ground (
        arith,
        (eq_iff s.issuer s.issuer).1 refl,
        (eq_iff s.repo s.repo).1 refl,
        (workflow_matches_iff (append s.workflow (append "@" v.ref_of_uri)) s.workflow).1
            (v.ref_of_uri, refl),
        ref_matches_complete s.ref_pattern v.ref v.ref_allowed,
      ))

abbrev pub SomeSigner : CertIdentity → List AllowedSigner → Type 0
SomeSigner c [] = ⊥
SomeSigner c (s ∷ allowed) = IsSignedBy c s ⊎ SomeSigner c allowed

-- A certificate's identity is allowed exactly when one entry of the list has its issuer and its
-- repository, its URI is that entry's workflow with `@` straight after it, and its ref is the entry's
-- or, where that ends in `*`, begins with the text before. A certificate that lacks one of the four
-- claims is never allowed.
pub identity_matches_allowlist_iff :
    (c : CertIdentity) (allowed : List AllowedSigner)
    → (identity_matches_allowlist c allowed ≡ true) ↔ SomeSigner c allowed
unfolding identity_matches_allowlist
identity_matches_allowlist_iff c [] = (λ h. ground (arith, h), λ h. absurd h)
identity_matches_allowlist_iff c (s ∷ allowed) =
    let rest = identity_matches_allowlist_iff c allowed in
    (
      λ h. elim (Bool-cases (signer_matches c.issuer c.repo c.workflow_uri c.ref_claim s)) [
        | inl e ↦ inl (signer_sound c s e)
        | inr e ↦ inr (rest.0 (ground (arith, e, h)))
      ],
      λ h. elim h [
        | inl v ↦ ground (arith, signer_complete c s v)
        | inr v ↦ ground (arith, rest.1 v)
      ],
    )
