-- ===== src/Upgrade/Watchdog.antt =====
-- src/upgrade/watchdog.rs: the watchdog that counts the boots of a new version and goes back to the
-- one before. The exit of the process is an outcome. The channel of the events may be full; the
-- events are those that are offered to it. `debug` is the `{:?}` of an optional text.
pub mod CrashLoop
pub mod Stuck
pub mod Health
use bilbycast_gateway_sdk.Base.{
  ℕ, ◌-◌, ◌/◌, ◌%◌, String, append, Bool, true, false, not, Option, none, some, List, [], ◌∷◌, ltb,
  if◌then◌else◌, str_eq,
}
use bilbycast_gateway_sdk.Upgrade.{UpgradeConfig}
use bilbycast_gateway_sdk.Upgrade.State.{
  UpgradeStatus, stable, pending_health, rolled_back, staged_manual, InstallState, StateFile,
  missing, unreadable, holds, Disk, Faults, load, save, update, bump_boot_attempts,
}

pub record UpgradeEvent : Type 0 where
  pub severity : String
  pub error_code : String
  pub from_version : Option String
  pub to_version : Option String
  pub channel : Option String
  pub message : String
  pub size_bytes : Option ℕ

pub data WatchdogOutcome : Type 0 where
  continues : WatchdogOutcome
  was_rolled_back : String → String → WatchdogOutcome
  pending : ℕ → WatchdogOutcome

pub data Boot : Type 0 where
  returns : WatchdogOutcome → Boot
  fails exits : Boot

abbrev pub or_unknown : Option String → String
or_unknown none = "unknown"
or_unknown (some v) = v

abbrev pub dir_exists : List String → String → Bool
dir_exists [] v = false
dir_exists (w ∷ ws) v = if str_eq w v then true else dir_exists ws v

-- `none` is an error, which leaves the disk and the state as they are.
pub revert_to_previous : Faults → Disk → InstallState → Option (Disk × InstallState)
revert_to_previous f d s = elim s.previous_version [
  | none ↦ none
  | some prev ↦
      if dir_exists d.versions prev
      then (if f.links
          then some (
            record d { current = some prev },
            record s { current_version = prev; previous_version = some s.current_version },
          )
          else none)
      else none
]

abbrev pub reverted : Disk → InstallState → Option (Disk × InstallState) → Disk × InstallState
reverted d s none = (d, s)
reverted d s (some r) = r

rollback_event : Option String → Option String → String → UpgradeEvent
rollback_event from to message = record {
  severity = "critical";
  error_code = "upgrade_rolled_back";
  from_version = from;
  to_version = to;
  channel = none;
  message = message;
  size_bytes = none;
}

-- The first boot of the version that the watchdog went back to.
pub after_rollback : Faults → Disk → InstallState → Disk × List UpgradeEvent × Boot
unfolding rollback_event
after_rollback f d s =
    let from = or_unknown s.previous_version in
    let to = s.current_version in
    let message =
      append "Upgrade to " (append from (append " rolled back automatically — running on " to)) in
    (
      save f (record s { status = stable; boot_attempts = 0 }) d,
      rollback_event (some from) (some to) message ∷ [],
      returns (was_rolled_back from to),
    )

module _ (debug : Option String → String) where
  -- The boot that is one too many goes back and exits.
  pub roll_back : Faults → Disk → InstallState → Disk × List UpgradeEvent × Boot
  unfolding rollback_event
  roll_back f d s =
      let (d', s') = reverted d s (revert_to_previous f d s) in
      let message = append "Upgrade to " (
        append s'.current_version (
          append " failed — reverted symlink to "
            (append (debug s'.previous_version) ", exiting for respawn"))) in
      (
        save f (record s' { status = rolled_back }) d',
        rollback_event (some s'.current_version) s'.previous_version message ∷ [],
        exits,
      )

  pub count_boot :
      UpgradeConfig → Faults → InstallState → Option ℕ × Disk → Disk × List UpgradeEvent × Boot
  count_boot cfg f s (none, d) = (d, [], fails)
  count_boot cfg f s (some attempt, d) =
      if ltb cfg.max_boot_attempts attempt
      then roll_back f d s
      else (d, [], returns (pending attempt))

  pub by_status :
      UpgradeConfig → Faults → Disk → InstallState → UpgradeStatus → Disk × List UpgradeEvent × Boot
  by_status cfg f d s stable = (d, [], returns continues)
  by_status cfg f d s staged_manual = (d, [], returns continues)
  by_status cfg f d s rolled_back = after_rollback f d s
  by_status cfg f d s pending_health = count_boot cfg f s (bump_boot_attempts f d)

  pub run_boot_watchdog : Option UpgradeConfig → Faults → Disk → Disk × List UpgradeEvent × Boot
  run_boot_watchdog none f d = (d, [], returns continues)
  run_boot_watchdog (some cfg) f d =
      if cfg.enabled
      then elim (load d) [
        | none ↦ (d, [], returns continues)
        | some s ↦ by_status cfg f d s s.status
      ]
      else (d, [], returns continues)

abbrev pub is_pending : UpgradeStatus → Bool
is_pending stable = false
is_pending pending_health = true
is_pending rolled_back = false
is_pending staged_manual = false

-- `auth_ok` from the manager, at `now`.
pub record_healthy_beat : Faults → ℕ → Disk → Disk
record_healthy_beat f now d =
    update f (λ s. if is_pending s.status then record s { last_health_at = some now } else s) d

abbrev pub to_secs : ℕ → ℕ
to_secs t = t / 1000000000

unfoldable pub completed_event : (ℕ → String) → InstallState → ℕ → UpgradeEvent
completed_event show s healthy_for = record {
  severity = "info";
  error_code = "upgrade_completed";
  from_version = some (or_unknown s.previous_version);
  to_version = some s.current_version;
  channel = some s.channel;
  message = append "Upgrade to " (
      append s.current_version
        (append " stable after " (append (show healthy_for) "s of healthy beats")));
  size_bytes = none;
}

-- The seconds since the staging are cut to `u32`; the clock is read twice.
abbrev pub healthy_for : ℕ → InstallState → ℕ
healthy_for now s = to_secs (now - s.staged_at) % 4294967296

pub settle_health :
    (ℕ → String)
    → Faults
    → UpgradeConfig
    → ℕ
    → ℕ
    → Disk
    → InstallState
    → ℕ
    → Disk × List UpgradeEvent
settle_health show f cfg now now' d s last =
    if ltb (healthy_for now s) cfg.boot_health_window_secs
    then (d, [])
    else if ltb 60 (to_secs (now' - last))
    then (d, [])
    else (
      update f (λ s'. record s' { status = stable }) d,
      completed_event show s (healthy_for now s) ∷ [],
    )

pub finalize_if_stable :
    (ℕ → String) → Faults → UpgradeConfig → ℕ → ℕ → Disk → Disk × List UpgradeEvent
finalize_if_stable show f cfg now now' d = elim (load d) [
  | none ↦ (d, [])
  | some s ↦ if not (is_pending s.status) then (d, []) else elim s.last_health_at [
    | none ↦ (d, [])
    | some last ↦ settle_health show f cfg now now' d s last
  ]
]
