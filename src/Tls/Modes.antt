-- ===== src/Tls/Modes.antt =====
-- src/tls.rs, `build_tls_config`: when nothing is verified.
use bilbycast_gateway_sdk.Base.{
  ◌≡◌, ◌↔◌, Bool, true, Option, none, some, String, arith, ok, eq_iff, inl, inr, Result-cases,
}
use bilbycast_gateway_sdk.Tls.{
  Codes, insecure, build_tls_config, build_pinned_config, is_nil, trim, normalise_fingerprint,
}

-- No pin, or a blank one.
abbrev pub Unpinned : Option Codes → Type 0
Unpinned none = Unit {0}
Unpinned (some fp) = is_nil (trim fp) ≡ true

pinned-not_insecure :
    (has_roots : Bool) (fp : Codes) → build_pinned_config has_roots fp ≡ ok insecure → ⊥
unfolding build_pinned_config
pinned-not_insecure has_roots fp h = elim (Result-cases (normalise_fingerprint fp)) [
  | inl p ↦ ground (arith, p.1, h)
  | inr p ↦ ground (arith, p.1, h)
]

module _ (has_roots : Bool) where
  insecure_sound :
      (env : Option String) (accept : Bool) (pin : Option Codes)
      → build_tls_config has_roots env accept pin ≡ ok insecure
      → Unpinned pin × (accept ≡ true) × (env ≡ some "1")
  unfolding build_tls_config
  insecure_sound none accept none h = absurd (ground arith)
  insecure_sound (some v) accept none h = (tt, ground arith, ground (arith, eq_iff v "1"))
  insecure_sound none accept (some fp) h =
      absurd (ground (arith, pinned-not_insecure has_roots (trim fp)))
  insecure_sound (some v) accept (some fp) h = (
    ground (arith, pinned-not_insecure has_roots (trim fp)),
    ground (arith, pinned-not_insecure has_roots (trim fp)),
    ground (arith, eq_iff v "1", pinned-not_insecure has_roots (trim fp)),
  )

  insecure_complete :
      (env : Option String) (accept : Bool) (pin : Option Codes)
      → Unpinned pin × (accept ≡ true) × (env ≡ some "1")
      → build_tls_config has_roots env accept pin ≡ ok insecure
  unfolding build_tls_config
  insecure_complete none accept pin h = absurd (ground arith)
  insecure_complete (some v) accept none h = ground (arith, eq_iff v "1")
  insecure_complete (some v) accept (some fp) h = ground (arith, eq_iff v "1")

-- Certificates go unverified exactly when no pin is configured (or a blank one), the configuration
-- accepts self-signed certificates, and the environment confirms it with "1".
pub build_tls_config-insecure :
    (has_roots : Bool) (env : Option String) (accept_self_signed : Bool) (pin : Option Codes)
    → (build_tls_config has_roots env accept_self_signed pin ≡ ok insecure)
      ↔ (Unpinned pin × (accept_self_signed ≡ true) × (env ≡ some "1"))
build_tls_config-insecure has_roots env accept pin =
    (insecure_sound has_roots env accept pin, insecure_complete has_roots env accept pin)
