-- ===== src/Upgrade/State.antt =====
-- src/upgrade/state.rs: the record of what is installed, and its file. The file is missing, holds what
-- does not parse, or holds a state; whether a write succeeds is decided by the `Faults` of the run.
-- Times are nanoseconds. Locks have no part here: one process reads and writes at a time.
use bilbycast_gateway_sdk.Base.{ℕ, ◌+◌, min, String, Bool, Option, none, some, List, if◌then◌else◌}

pub data UpgradeStatus : Type 0 where
  stable pending_health rolled_back staged_manual : UpgradeStatus

pub record InstallState : Type 0 where
  pub current_version : String
  pub previous_version : Option String
  pub channel : String
  pub variant : String
  pub arch : String
  pub status : UpgradeStatus
  pub boot_attempts : ℕ
  pub staged_at : ℕ
  pub last_health_at : Option ℕ
  pub last_sequence : ℕ

pub data StateFile : Type 0 where
  missing unreadable : StateFile
  holds : InstallState → StateFile

-- The install root: `state.json`, the directories under `versions` and the link `current`.
pub record Disk : Type 0 where
  pub state_file : StateFile
  pub versions : List String
  pub current : Option String

-- A write in place can fail before it touches the file or halfway through.
pub data BumpFault : Type 0 where
  no_fault fails_before tears_file : BumpFault

pub record Faults : Type 0 where
  pub saves : Bool
  pub bump : BumpFault
  pub links : Bool

unfoldable pub load : Disk → Option InstallState
load d = elim d.state_file [ missing ↦ none | unreadable ↦ none | holds s ↦ some s ]

-- The new file is written beside the old one and renamed over it: it replaces it or leaves it.
unfoldable pub save : Faults → InstallState → Disk → Disk
save f s d = if f.saves then record d { state_file = holds s } else d

unfoldable pub update : Faults → (InstallState → InstallState) → Disk → Disk
unfolding load save
update f mutate d = elim (load d) [ none ↦ d | some s ↦ save f (mutate s) d ]

-- The number of attempts with this one, and the disk; `none` is an error.
unfoldable pub bump_boot_attempts : Faults → Disk → Option ℕ × Disk
unfolding load
bump_boot_attempts f d = elim (load d) [
  | none ↦ (none, d)
  | some s ↦
      let attempts = min (s.boot_attempts + 1) 4294967295 in
      elim f.bump [
        | no_fault ↦
            (some attempts, record d { state_file = holds (record s { boot_attempts = attempts }) })
        | fails_before ↦ (none, d)
        | tears_file ↦ (none, record d { state_file = unreadable })
      ]
]
