-- ===== src/Upgrade/Watchdog/Stuck.antt =====
-- src/upgrade/watchdog.rs: a new version that never gets healthy and cannot be rolled back.
use bilbycast_gateway_sdk.Base.{
  ℕ, zero, suc, ◌+◌, ◌<◌, ◌≡◌, refl, ap, ◌∙◌, String, true, false, Option, some, List, [], ◌∷◌,
  ◌++◌, arith, min, none, Bool, Bool-cases, ◌⊎◌, inl, inr,
}
use bilbycast_gateway_sdk.Upgrade.{UpgradeConfig}
use bilbycast_gateway_sdk.Upgrade.State.{
  stable, pending_health, rolled_back, InstallState, Disk, Faults, no_fault, load, save,
  bump_boot_attempts,
}
use bilbycast_gateway_sdk.Upgrade.Watchdog.{
  Boot, or_unknown, returns, exits, was_rolled_back, pending, dir_exists, run_boot_watchdog,
  by_status, count_boot, roll_back, after_rollback, revert_to_previous,
}
use bilbycast_gateway_sdk.Upgrade.Watchdog.CrashLoop.{with_state, counted}

module _ (debug : Option String → String) (cfg : UpgradeConfig) where
  -- So many boots of the gateway in a row, with the same faults in each.
  abbrev pub boots_with : Faults → ℕ → Disk → Disk × List Boot
  boots_with f zero d = (d, [])
  boots_with f (suc n) d =
      let out = run_boot_watchdog debug (some cfg) f d in
      let rest = boots_with f n out.0 in (rest.0, out.2 ∷ rest.1)

-- The faults under which links fail or not, and writes succeed.
abbrev pub links_work : Bool → Faults
links_work works = record { saves = true; bump = no_fault; links = works }

-- Nothing can be gone back to: no version is remembered, its directory is gone, or links fail.
abbrev pub CannotRevert : Bool → Disk → InstallState → Type 0
CannotRevert works d s =
    (s.previous_version ≡ none)
    ⊎ ((prev : String) × (s.previous_version ≡ some prev)
        × ((dir_exists d.versions prev ≡ false) ⊎ (works ≡ false)))

revert_to_previous-none :
    (works : Bool) (d : Disk) (s : InstallState)
    → CannotRevert works d s
    → revert_to_previous (links_work works) d s ≡ none
unfolding revert_to_previous
revert_to_previous-none works d s (inl h) = rw (h, revert_to_previous) refl
revert_to_previous-none works d s (inr (prev, h, inl gone)) = rw (h, gone, revert_to_previous) refl
revert_to_previous-none works d s (inr (prev, h, inr broken)) =
    elim (Bool-cases (dir_exists d.versions prev)) [
      | inl e ↦ rw (h, e, broken, revert_to_previous) refl
      | inr e ↦ rw (h, e, revert_to_previous) refl
    ]

module _ (debug : Option String → String) (cfg : UpgradeConfig) (enabled : cfg.enabled ≡ true)
    (works : Bool) where
  counted_boot_anyway :
      (d : Disk) (s : InstallState)
      → s.status ≡ pending_health
      → s.boot_attempts < cfg.max_boot_attempts
      → cfg.max_boot_attempts < 4294967295
      → let out = run_boot_watchdog debug (some cfg) (links_work works) (with_state d s) in
        (out.0 ≡ with_state d (record s { boot_attempts = s.boot_attempts + 1 }))
        × (out.2 ≡ returns (pending (s.boot_attempts + 1)))
  unfolding run_boot_watchdog by_status count_boot bump_boot_attempts load
  counted_boot_anyway d s p few small = (ground arith, ground arith)

  last_boot_stays :
      (d : Disk) (s : InstallState)
      → s.status ≡ pending_health
      → s.boot_attempts ≡ cfg.max_boot_attempts
      → cfg.max_boot_attempts < 4294967295
      → CannotRevert works d s
      → let out = run_boot_watchdog debug (some cfg) (links_work works) (with_state d s) in
        (out.0 ≡ with_state d (record s { status = rolled_back })) × (out.2 ≡ exits)
  unfolding run_boot_watchdog by_status count_boot bump_boot_attempts load roll_back save
  last_boot_stays d s p many small stuck =
      let attempts = min (s.boot_attempts + 1) 4294967295 in
      let r =
        revert_to_previous-none works (with_state d (record s { boot_attempts = attempts })) s
          stuck in
      (ground (arith, r), ground (arith, r))

  next_boot_stays :
      (d : Disk) (s : InstallState)
      → let out =
          run_boot_watchdog debug
            (some cfg)
            (links_work works)
            (with_state d (record s { status = rolled_back })) in
        (out.0 ≡ with_state d (record s { status = stable; boot_attempts = 0 }))
        × (out.2 ≡ returns (was_rolled_back (or_unknown s.previous_version) s.current_version))
  unfolding run_boot_watchdog by_status load after_rollback save
  next_boot_stays d s = (ground arith, ground arith)

  stays :
      (n : ℕ) (d : Disk) (s : InstallState)
      → s.status ≡ pending_health
      → s.boot_attempts + n ≡ cfg.max_boot_attempts
      → cfg.max_boot_attempts < 4294967295
      → CannotRevert works d s
      → let out = boots_with debug cfg (links_work works) (suc (suc n)) (with_state d s) in
        (out.0 ≡ with_state d (record s { status = stable; boot_attempts = 0 }))
        × (out.1
            ≡ counted s.boot_attempts n
              ++ exits
                ∷ returns (was_rolled_back (or_unknown s.previous_version) s.current_version)
                ∷ [])
  stays zero d s p many small stuck =
      let b = last_boot_stays d s p (omega arith) small stuck in
      let c = next_boot_stays d s in rw (b.0, b.1, c.0, c.1) (refl, refl)
  stays (suc n) d s p many small stuck =
      let b = counted_boot_anyway d s p (omega arith) small in
      rw (b.0, b.1)
        (let (e, f) =
            stays n d (record s { boot_attempts = s.boot_attempts + 1 }) p (omega arith) small
              stuck in
          (e, ap (◌∷◌ (returns (pending (s.boot_attempts + 1)))) f))

-- Where nothing can be gone back to (no previous version is remembered, its directory is gone, or the
-- links cannot be changed), a new version that never gets a healthy beat still boots as often as the
-- policy allows; the boot after that exits, and the next one reports a rollback and leaves a stable
-- state, though the link, the versions and the version in the state are those of the failing version:
-- a rollback that did not happen is reported. (Where no write of the state fails.)
pub boots-stays :
    (debug : Option String → String) (cfg : UpgradeConfig) (works : Bool) (d : Disk)
    (s : InstallState)
    → cfg.enabled ≡ true
    → cfg.max_boot_attempts < 4294967295
    → s.status ≡ pending_health
    → s.boot_attempts ≡ 0
    → CannotRevert works d s
    → let out =
        boots_with debug cfg
          (links_work works)
          (suc (suc cfg.max_boot_attempts))
          (with_state d s) in
      (out.0 ≡ with_state d (record s { status = stable; boot_attempts = 0 }))
      × (out.1
          ≡ counted 0 cfg.max_boot_attempts
            ++ exits
              ∷ returns (was_rolled_back (or_unknown s.previous_version) s.current_version)
              ∷ [])
boots-stays debug cfg works d s enabled small p new stuck =
    let (e, f) =
      stays debug cfg enabled works cfg.max_boot_attempts d s p (omega arith) small stuck in
    (
      e,
      f
          ∙ ap
              (λ a.
                counted a cfg.max_boot_attempts
                ++ exits
                  ∷ returns (was_rolled_back (or_unknown s.previous_version) s.current_version)
                  ∷ [])
              new,
    )
