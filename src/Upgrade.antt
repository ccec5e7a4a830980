-- ===== src/Upgrade.antt =====
-- src/upgrade/mod.rs: the operator's policy for remote upgrades, which the children use.
pub mod Manifest
pub mod Signers
pub mod State
pub mod Watchdog
pub mod Stage
pub mod Verify
pub mod Archive
pub mod Apply
pub mod Download
use bilbycast_gateway_sdk.Base.{ℕ, String, Bool, false, Option, none, List, [], ◌∷◌}

pub record UpgradeConfig : Type 0 where
  pub enabled : Bool
  pub allowed_channels : List String
  pub min_version : Option String
  pub rollback_grace : ℕ
  pub install_root : String
  pub boot_health_window_secs : ℕ
  pub max_boot_attempts : ℕ
  pub manual_only : Bool

abbrev pub default_upgrade_config : UpgradeConfig
default_upgrade_config = record {
  enabled = false;
  allowed_channels = "stable" ∷ [];
  min_version = none;
  rollback_grace = 1;
  install_root = "/opt/bilbycast/gateway";
  boot_health_window_secs = 120;
  max_boot_attempts = 3;
  manual_only = false;
}
