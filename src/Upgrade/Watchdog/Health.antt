-- ===== src/Upgrade/Watchdog/Health.antt =====
-- src/upgrade/watchdog.rs: when a new version counts as healthy.
use bilbycast_gateway_sdk.Base.{
  Bool-cases, ltb, ℕ, ◌-◌, ◌<◌, ◌%◌, ◌/◌, append, subst, Option, none, ◌≤◌, ◌≡◌, refl, String, true,
  false, some, [], ◌∷◌, arith, Option-cases, inl, inr, ◌⊎◌,
}
use bilbycast_gateway_sdk.Upgrade.{UpgradeConfig}
use bilbycast_gateway_sdk.Upgrade.State.{
  UpgradeStatus, stable, pending_health, rolled_back, staged_manual, InstallState, holds, Disk,
  Faults, load, save, update,
}
use bilbycast_gateway_sdk.Upgrade.Watchdog.{
  UpgradeEvent, finalize_if_stable, settle_health, is_pending, healthy_for, to_secs,
  completed_event,
}

abbrev pub whole_secs : ℕ → ℕ
whole_secs t = t / 1000000000

-- The event of a version that is stable, after so many seconds.
abbrev pub completed : (ℕ → String) → InstallState → String → ℕ → UpgradeEvent
completed show s previous seconds = record {
  severity = "info";
  error_code = "upgrade_completed";
  from_version = some previous;
  to_version = some s.current_version;
  channel = some s.channel;
  message = append "Upgrade to " (
      append s.current_version
        (append " stable after " (append (show seconds) "s of healthy beats")));
  size_bytes = none;
}

-- Healthy: it waits for its health, was staged at least the window ago (in whole seconds, cut to a
-- `u32`), and has had a beat less than 61 s ago.
pub record IsHealthy (cfg : UpgradeConfig) (now now' : ℕ) (s : InstallState) : Type 0 where
  pub pends : s.status ≡ pending_health
  pub old_enough : cfg.boot_health_window_secs ≤ whole_secs (now - s.staged_at) % 4294967296
  pub last : ℕ
  pub beat : s.last_health_at ≡ some last
  pub recent : now' - last < 61000000000

abbrev pub previous_or_unknown : Option String → String
previous_or_unknown none = "unknown"
previous_or_unknown (some v) = v

-- The periodic check measures in whole seconds.
in_a_minute : (t : ℕ) → ltb 60 (to_secs t) ≡ false → t < 61000000000
in_a_minute t h = ground arith

past_a_minute : (t : ℕ) → ltb 60 (to_secs t) ≡ true → t < 61000000000 → ⊥
past_a_minute t h l = ground arith

status-cases : (u : UpgradeStatus) → (u ≡ pending_health) ⊎ (is_pending u ≡ false)
status-cases pending_health = inl refl
status-cases stable = inr refl
status-cases rolled_back = inr refl
status-cases staged_manual = inr refl

-- The periodic check finds that a version waits for its health, was staged at least the window ago (in
-- whole seconds, cut to a `u32`) and had a beat less than 61 s ago (60 whole seconds), and declares it
-- stable, with one event that names both versions and those seconds; or it finds that this is not so
-- and does nothing. (Where the state can be read, and the write does not fail.)
pub finalize_if_stable-IsHealthy :
    (show : ℕ → String) (f : Faults) (cfg : UpgradeConfig) (now now' : ℕ) (d : Disk)
    (s : InstallState)
    → d.state_file ≡ holds s
    → f.saves ≡ true
    → let out = finalize_if_stable show f cfg now now' d in
      (IsHealthy cfg now now' s
        × (out ≡ (
          record d { state_file = holds (record s { status = stable }) },
          completed show s
                (previous_or_unknown s.previous_version)
                (whole_secs (now - s.staged_at) % 4294967296)
              ∷ [],
        )))
      ⊎ ((¬ IsHealthy cfg now now' s) × (out ≡ (d, [])))
unfolding finalize_if_stable completed_event settle_health update load save
finalize_if_stable-IsHealthy show f cfg now now' d s e ok = elim (status-cases s.status) [
  | inr q ↦ inr (λ h. ground (arith, q, h.pends), ground (arith, q))
  | inl p ↦ elim (Option-cases s.last_health_at) [
    | inl q ↦ inr (λ h. ground (arith, q, h.beat), ground (arith, q, p))
    | inr q ↦ elim (Bool-cases (ltb (healthy_for now s) cfg.boot_health_window_secs)) [
      | inl young ↦ inr (λ h. ground (arith, young, h.old_enough), ground (arith, q.1, p, young))
      | inr aged ↦ elim (Bool-cases (ltb 60 (to_secs (now' - q.0)))) [
        | inl late ↦ inr (
          λ h.
              let same : h.last ≡ q.0 = ground (arith, h.beat, q.1) in
              past_a_minute (now' - q.0) late (subst (λ t. now' - t < 61000000000) same h.recent),
          ground (arith, q.1, p, aged, late),
        )
        | inr fresh ↦ inl (
          record {
            pends = p;
            old_enough = ground (arith, aged);
            last = q.0;
            beat = q.1;
            recent = in_a_minute (now' - q.0) fresh;
          },
          ground (arith, q.1, p, aged, fresh),
        )
      ]
    ]
  ]
]
