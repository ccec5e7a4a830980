-- ===== src/Upgrade/Apply/Manual.antt =====
-- src/upgrade/apply.rs, `manual_apply_pending`: the version that was staged for a manual start. The
-- write of the state is the one of `state::save`, which `Faults` decides.
pub mod Started
use bilbycast_gateway_sdk.Base.{
  String, Bool, true, false, if◌then◌else◌, not, ◌&&◌, Option, none, some, ◌≡◌, refl, sym, subst,
  ◌⊎◌, inl, inr, arith, Bool-cases, Result, Result-cases, ok, err, err≢ok, ◌>>=◌, ◌>>◌, ok_or,
  refuse_if,
}
use bilbycast_gateway_sdk.Upgrade.Manifest.{any_is}
use bilbycast_gateway_sdk.Upgrade.State.{
  UpgradeStatus, stable, pending_health, rolled_back, staged_manual, InstallState, StateFile, Disk,
  Faults, load, save,
}
use bilbycast_gateway_sdk.Upgrade.Apply.{Root, ApplyError, Call, Outcome, swap_current_symlink}

pub data ManualError : Type 0 where
  state_not_read state_not_saved : ManualError
  nothing_pending : UpgradeStatus → ManualError
  directory_missing : String → ManualError
  not_swapped : ApplyError → ManualError

abbrev pub is_staged_manual : UpgradeStatus → Bool
is_staged_manual staged_manual = true
is_staged_manual stable = false
is_staged_manual pending_health = false
is_staged_manual rolled_back = false

-- The install root as the state's file and its links see it.
abbrev pub disk_of : Root → StateFile → Disk
disk_of r file = record { state_file = file; versions = r.dirs; current = r.current }

-- What is read before anything changes.
unfoldable pub pending : Root → StateFile → Result ManualError InstallState
unfolding load
pending r file = do
  state ← ok_or (load (disk_of r file)) state_not_read
  refuse_if (not (is_staged_manual state.status)) (nothing_pending state.status)
  refuse_if (not (any_is r.dirs state.current_version)) (directory_missing state.current_version)
  ok state

abbrev pub Applied : Type 0
Applied = (Root × StateFile) × Result ManualError (Unit {0})

-- What the write of the state gives.
abbrev pub answer : Bool → Result ManualError (Unit {0})
answer saves = if saves then ok tt else err state_not_saved

-- The state is written after the link is swapped.
unfoldable pub finish : Faults → InstallState → StateFile → Outcome → Applied
unfolding save
finish f state file (r, err e) = ((r, file), err (not_swapped e))
finish f state file (r, ok u) =
    let started = record state { status = pending_health; boot_attempts = 0 } in
    ((r, (save f started (disk_of r file)).state_file), answer f.saves)

unfoldable pub manual_apply_pending : (Call → Bool) → Faults → Root → StateFile → Applied
manual_apply_pending fails f r file = elim (pending r file) [
  | err e ↦ ((r, file), err e)
  | ok state ↦
      finish f state file (swap_current_symlink fails state.current_version (λ d. (d, ok tt)) r)
]
