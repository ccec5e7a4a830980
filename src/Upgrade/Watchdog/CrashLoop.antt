-- ===== src/Upgrade/Watchdog/CrashLoop.antt =====
-- src/upgrade/watchdog.rs: a new version that never gets healthy is rolled back.
use bilbycast_gateway_sdk.Base.{
  ℕ, zero, suc, ◌+◌, ◌<◌, ◌≡◌, refl, ap, ◌∙◌, String, true, Option, some, List, [], ◌∷◌, ◌++◌,
  arith,
}
use bilbycast_gateway_sdk.Upgrade.{UpgradeConfig}
use bilbycast_gateway_sdk.Upgrade.State.{
  stable, pending_health, rolled_back, InstallState, holds, Disk, Faults, no_fault, load, save,
  bump_boot_attempts,
}
use bilbycast_gateway_sdk.Upgrade.Watchdog.{
  Boot, returns, exits, was_rolled_back, pending, dir_exists, run_boot_watchdog, by_status,
  count_boot, roll_back, after_rollback, revert_to_previous,
}

abbrev pub no_faults : Faults
no_faults = record { saves = true; bump = no_fault; links = true }

abbrev pub with_state : Disk → InstallState → Disk
with_state d s = record d { state_file = holds s }

module _ (debug : Option String → String) (cfg : UpgradeConfig) where
  -- So many boots of the gateway in a row, each of which the watchdog sees first.
  abbrev pub boots : ℕ → Disk → Disk × List Boot
  boots zero d = (d, [])
  boots (suc n) d =
      let out = run_boot_watchdog debug (some cfg) no_faults d in
      let rest = boots n out.0 in (rest.0, out.2 ∷ rest.1)

abbrev pub counted : ℕ → ℕ → List Boot
counted a zero = []
counted a (suc n) = returns (pending (a + 1)) ∷ counted (a + 1) n

abbrev pub gone_back : InstallState → String → InstallState
gone_back s prev = record s {
  current_version = prev;
  previous_version = some s.current_version;
  status = rolled_back;
}

module _ (debug : Option String → String) (cfg : UpgradeConfig) (enabled : cfg.enabled ≡ true) where
  counted_boot :
      (d : Disk) (s : InstallState)
      → s.status ≡ pending_health
      → s.boot_attempts < cfg.max_boot_attempts
      → cfg.max_boot_attempts < 4294967295
      → let out = run_boot_watchdog debug (some cfg) no_faults (with_state d s) in
        (out.0 ≡ with_state d (record s { boot_attempts = s.boot_attempts + 1 }))
        × (out.2 ≡ returns (pending (s.boot_attempts + 1)))
  unfolding run_boot_watchdog by_status count_boot bump_boot_attempts load
  counted_boot d s p few small = (ground arith, ground arith)

  last_boot :
      (d : Disk) (s : InstallState) (prev : String)
      → s.status ≡ pending_health
      → s.boot_attempts ≡ cfg.max_boot_attempts
      → cfg.max_boot_attempts < 4294967295
      → s.previous_version ≡ some prev
      → dir_exists d.versions prev ≡ true
      → let out = run_boot_watchdog debug (some cfg) no_faults (with_state d s) in
        (out.0 ≡ with_state (record d { current = some prev }) (gone_back s prev)) × (out.2 ≡ exits)
  unfolding run_boot_watchdog by_status count_boot bump_boot_attempts load roll_back
      revert_to_previous save
  last_boot d s prev p many small has_prev on_disk = (ground arith, ground arith)

  next_boot :
      (d : Disk) (s : InstallState) (prev : String)
      → let out = run_boot_watchdog debug (some cfg) no_faults (with_state d (gone_back s prev)) in
        (out.0 ≡ with_state d (record (gone_back s prev) { status = stable; boot_attempts = 0 }))
        × (out.2 ≡ returns (was_rolled_back s.current_version prev))
  unfolding run_boot_watchdog by_status load after_rollback save
  next_boot d s prev = (ground arith, ground arith)

  loops :
      (n : ℕ) (d : Disk) (s : InstallState) (prev : String)
      → s.status ≡ pending_health
      → s.boot_attempts + n ≡ cfg.max_boot_attempts
      → cfg.max_boot_attempts < 4294967295
      → s.previous_version ≡ some prev
      → dir_exists d.versions prev ≡ true
      → let out = boots debug cfg (suc (suc n)) (with_state d s) in
        (out.0
          ≡ with_state
              (record d { current = some prev })
              (record (gone_back s prev) { status = stable; boot_attempts = 0 }))
        × (out.1
            ≡ counted s.boot_attempts n
              ++ exits ∷ returns (was_rolled_back s.current_version prev) ∷ [])
  loops zero d s prev p many small has_prev on_disk =
      let b = last_boot d s prev p (omega arith) small has_prev on_disk in
      let c = next_boot (record d { current = some prev }) s prev in
      rw (b.0, b.1, c.0, c.1) (refl, refl)
  loops (suc n) d s prev p many small has_prev on_disk =
      let b = counted_boot d s p (omega arith) small in
      rw (b.0, b.1)
        (let (e, f) =
            loops n d (record s { boot_attempts = s.boot_attempts + 1 }) prev p (omega arith) small
              has_prev on_disk in
          (e, ap (◌∷◌ (returns (pending (s.boot_attempts + 1)))) f))

-- A new version that was staged, and that never gets a healthy beat, boots as often as the policy
-- allows, each boot counted; the boot after that puts the previous version back in the link and in
-- the state and exits; and the next one reports the rollback and leaves a stable state. (Where no
-- write fails, and the directory of the previous version is there.)
pub boots-rolls_back :
    (debug : Option String → String) (cfg : UpgradeConfig) (d : Disk) (s : InstallState)
    (prev : String)
    → cfg.enabled ≡ true
    → cfg.max_boot_attempts < 4294967295
    → s.status ≡ pending_health
    → s.boot_attempts ≡ 0
    → s.previous_version ≡ some prev
    → dir_exists d.versions prev ≡ true
    → let out = boots debug cfg (suc (suc cfg.max_boot_attempts)) (with_state d s) in
      (out.0
        ≡ with_state
            (record d { current = some prev })
            (record (gone_back s prev) { status = stable; boot_attempts = 0 }))
      × (out.1
          ≡ counted 0 cfg.max_boot_attempts
            ++ exits ∷ returns (was_rolled_back s.current_version prev) ∷ [])
boots-rolls_back debug cfg d s prev enabled small p new has_prev on_disk =
    let (e, f) =
      loops debug cfg enabled cfg.max_boot_attempts d s prev p (omega arith) small has_prev
        on_disk in
    (
      e,
      f
          ∙ ap
              (λ a.
                counted a cfg.max_boot_attempts
                ++ exits ∷ returns (was_rolled_back s.current_version prev) ∷ [])
              new,
    )
