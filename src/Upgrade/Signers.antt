-- ===== src/Upgrade/Signers.antt =====
-- src/upgrade/trust.rs and src/upgrade/verify.rs, `identity_matches_allowlist`: which workflow runs may
-- have signed a release.
pub mod Identity
use bilbycast_gateway_sdk.Base.{
  String, Bool, true, false, ◌&&◌, ◌||◌, Option, none, some, List, [], ◌∷◌, str_eq, starts_with,
  strip_prefix, strip_suffix,
}

pub record AllowedSigner : Type 0 where
  pub issuer : String
  pub repo : String
  pub ref_pattern : String
  pub workflow : String

pub record CertIdentity : Type 0 where
  pub issuer : Option String
  pub repo : Option String
  pub workflow_uri : Option String
  pub ref_claim : Option String

-- `*` at the end of a pattern is the one wildcard.
unfoldable pub ref_matches : String → String → Bool
ref_matches pattern actual = elim (strip_suffix pattern "*") [
  | some prefix ↦ starts_with actual prefix
  | none ↦ str_eq pattern actual
]

-- The workflow's path, and `@` straight after it.
unfoldable pub workflow_matches : String → String → Bool
workflow_matches uri workflow = elim (strip_prefix uri workflow) [
  | some rest ↦ starts_with rest "@"
  | none ↦ false
]

unfoldable pub signer_matches :
    Option String → Option String → Option String → Option String → AllowedSigner → Bool
signer_matches (some issuer) (some repo) (some uri) (some ref) s =
    str_eq issuer s.issuer
    && (str_eq repo s.repo && (workflow_matches uri s.workflow && ref_matches s.ref_pattern ref))
signer_matches _ _ _ _ s = false

unfoldable pub identity_matches_allowlist : CertIdentity → List AllowedSigner → Bool
identity_matches_allowlist c [] = false
identity_matches_allowlist c (s ∷ allowed) =
    let rest = identity_matches_allowlist c allowed in
    signer_matches c.issuer c.repo c.workflow_uri c.ref_claim s || rest
