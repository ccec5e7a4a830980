-- ===== src/Upgrade/Manifest/Window.antt =====
-- src/upgrade/manifest.rs: `check_version_window`.
use bilbycast_gateway_sdk.Base.{
  Option-cases, inl, inr, ◌+◌, ◌%◌, ◌≤◌, ◌≡◌, String, ◌↔◌, ◌⊎◌, false, none, some, arith, ok,
}
use bilbycast_gateway_sdk.Upgrade.{UpgradeConfig}
use bilbycast_gateway_sdk.Upgrade.Manifest.{Semver, check_version_window}

module _ (v : Semver) (cfg : UpgradeConfig) where
  open v use {Version, parse, major, minor, less, same}

  -- A version that the window lets through.
  pub record IsInWindow (target current : Version) : Type 0 where
    pub not_below :
        (cfg.min_version ≡ none)
        ⊎ ((text : String) × (floor : Version) × (cfg.min_version ≡ some text)
            × (parse text ≡ some floor)
            × (less target floor ≡ false))
    pub changes : same target current ≡ false
    pub same_major : major target ≡ major current
    pub near : minor current ≤ (minor target + cfg.rollback_grace) % 18446744073709551616

  window_sound :
      (target current : Version)
      → check_version_window v target current cfg ≡ ok tt
      → IsInWindow target current
  unfolding check_version_window
  window_sound target current h = record {
    not_below = elim (Option-cases cfg.min_version) [
      | inl e ↦ inl e
      | inr p ↦ elim (Option-cases (parse p.0)) [
        | inl e ↦ absurd (ground (arith, p.1, e, h))
        | inr q ↦ inr (p.0, q.0, p.1, q.1, ground (arith, p.1, q.1, h))
      ]
    ];
    changes = ground arith;
    same_major = ground arith;
    near = ground arith;
  }

  window_complete :
      (target current : Version)
      → IsInWindow target current
      → check_version_window v target current cfg ≡ ok tt
  unfolding check_version_window
  window_complete target current w = elim w.not_below [
    | inl e ↦ ground (arith, e)
    | inr q ↦ ground (arith, q)
  ]

-- A version passes the window exactly when it is not below the configured minimum (which must then
-- parse), is not the one installed, has its major version, and, with the grace added to it as a
-- `u64`, has no lower minor version.
pub check_version_window-IsInWindow :
    (v : Semver) (cfg : UpgradeConfig) (target current : v.Version)
    → (check_version_window v target current cfg ≡ ok tt) ↔ IsInWindow v cfg target current
check_version_window-IsInWindow v cfg target current =
    (window_sound v cfg target current, window_complete v cfg target current)
