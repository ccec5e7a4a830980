-- ===== src/Upgrade/Apply.antt =====
-- src/upgrade/apply.rs: the installation of a new version under the install root. The directories of
-- `versions` go by their names, and a link by the version that it names. `fails` says which call of the
-- file system fails, which leaves the disk as it is; a removal whose result is ignored has none.
pub mod Newest
pub mod Garbage
pub mod Disk
pub mod Links
pub mod Manual
use bilbycast_gateway_sdk.Base.{
  ℕ, String, Bool, true, false, not, ◌&&◌, ◌||◌, Option, none, some, List, [], ◌∷◌, ◌++◌, leb,
  if◌then◌else◌, str_eq, append, Result, ok, err, drop, ends_with, map,
}
use bilbycast_gateway_sdk.Upgrade.Archive.{Located, at_top, nested, not_there}
use bilbycast_gateway_sdk.Upgrade.Manifest.{any_is}

pub record Root : Type 0 where
  pub dirs : List String
  pub current : Option String
  pub previous : Option String
  pub current_tmp : Option String

pub data ApplyError : Type 0 where
  version_mismatch no_versions_dir not_removed not_created not_extracted binary_not_found :
      ApplyError
  permissions_not_set not_renamed not_linked : ApplyError

-- The calls whose failure ends the installation.
pub data Call : Type 0 where
  create_versions remove_partial remove_final create_partial read_metadata set_permissions
        move_binary :
      Call
  rename_final link_previous link_tmp rename_link : Call

-- A version directory as the garbage collection finds it, with its time if that can be read.
pub record Found : Type 0 where
  pub name : String
  pub mtime : Option ℕ

pub record Aged : Type 0 where
  pub name : String
  pub mtime : ℕ

unfoldable pub insert_newest : Aged → List Aged → List Aged
insert_newest a [] = a ∷ []
insert_newest a (b ∷ bs) =
    let rest = insert_newest a bs in if leb b.mtime a.mtime then a ∷ b ∷ bs else b ∷ rest

-- `sort_by_key` by `Reverse(mtime)`, which is stable.
unfoldable pub newest_first : List Aged → List Aged
newest_first [] = []
newest_first (a ∷ as') = insert_newest a (newest_first as')

-- The candidates, and the leftovers of broken installations, which go at once.
unfoldable pub candidates : String → List Found → List Aged × List String
candidates current_version [] = ([], [])
candidates current_version (f ∷ fs) =
    let (aged, leftovers) = candidates current_version fs in
    if str_eq f.name current_version
    then (aged, leftovers)
    else if ends_with f.name ".partial"
    then (aged, f.name ∷ leftovers)
    else elim f.mtime [
      | none ↦ (aged, leftovers)
      | some t ↦ (record { name = f.name; mtime = t } ∷ aged, leftovers)
    ]

abbrev pub name_of : Aged → String
name_of a = a.name

-- The directories that go: the leftovers, and all but the `keep` newest candidates.
unfoldable pub gc_versions : String → ℕ → List Found → List String
gc_versions current_version keep found =
    let (aged, leftovers) = candidates current_version found in
    leftovers ++ map name_of (drop keep (newest_first aged))

abbrev pub without : String → List String → List String
without name [] = []
without name (d ∷ ds) = let rest = without name ds in if str_eq d name then rest else d ∷ rest

abbrev pub without_all : List String → List String → List String
without_all [] ds = ds
without_all (name ∷ names) ds = without_all names (without name ds)

abbrev pub Outcome : Type 0
Outcome = Root × Result ApplyError (Unit {0})

-- A call that may fail, and what comes after it.
unfoldable pub step : Bool → ApplyError → (Root → Root) → (Root → Outcome) → Root → Outcome
step failed e change k r = let rest = k (change r) in if failed then (r, err e) else rest

abbrev pub is_link_to : Option String → String → Bool
is_link_to none version = false
is_link_to (some v) version = str_eq v version

abbrev pub partial_of : String → String
partial_of version = append version ".partial"

-- The unpacking of an archive: whether it succeeds, and what it does to the install root besides what it
-- writes under the partial directory. (`entry.unpack` follows a symbolic link of an earlier entry.)
pub record Extraction : Type 0 where
  pub succeeds : Bool
  pub touches : Root → Root

module _ (fails : Call → Bool) (version : String) where
  -- The new link is made beside the old one, and renamed over it.
  unfoldable pub link_current : (Root → Outcome) → Root → Outcome
  link_current k r =
      step (fails link_tmp) not_linked (λ d. record d { current_tmp = some version })
        (step (fails rename_link) not_renamed
          (λ d. record d { current = some version; current_tmp = none }) k)
        (record r { current_tmp = none })

  unfoldable pub swap_current_symlink : (Root → Outcome) → Root → Outcome
  swap_current_symlink k r = elim r.current [
    | none ↦ link_current k r
    | some old ↦
        step (fails link_previous) not_linked (λ d. record d { previous = some old })
          (link_current k) (record r { previous = none })
  ]

  -- What the garbage collection finds; nothing if it cannot look.
  module _ (found : List Found) where
    unfoldable pub collect : Root → Outcome
    collect r = (record r { dirs = without_all (gc_versions version 3 found) r.dirs }, ok tt)

    unfoldable pub publish : Root → Outcome
    publish =
        step (fails rename_final) not_renamed
          (λ d. record d { dirs = version ∷ without (partial_of version) d.dirs })
          (swap_current_symlink collect)

    unfoldable pub prepare : Located → Root → Outcome
    prepare not_there r = (r, err binary_not_found)
    prepare at_top r =
        step (fails read_metadata) permissions_not_set (λ d. d)
          (step (fails set_permissions) permissions_not_set (λ d. d) publish) r
    prepare nested r =
        step (fails read_metadata) permissions_not_set (λ d. d)
          (step (fails set_permissions) permissions_not_set (λ d. d)
            (step (fails move_binary) not_renamed (λ d. d) publish))
          r

    unfoldable pub unpack : Extraction → Located → Root → Outcome
    unpack extraction located =
        step (fails create_partial) not_created
          (λ d. record d { dirs = partial_of version ∷ d.dirs })
          (λ r.
            let r' = extraction.touches r in
            let rest = prepare located r' in
            if extraction.succeeds then rest else (r', err not_extracted))

    -- A directory of this version is replaced, unless it is the one in use.
    unfoldable pub clear_final : Extraction → Located → Root → Outcome
    clear_final extraction located r =
        let go_on = unpack extraction located r in
        let replace =
          step (fails remove_final) not_removed (λ d. record d { dirs = without version d.dirs })
            (unpack extraction located) r in
        if any_is r.dirs version
        then (if is_link_to r.current version then (r, ok tt) else replace)
        else go_on

    unfoldable pub clear_partial : Extraction → Located → Root → Outcome
    clear_partial extraction located r =
        let go_on = clear_final extraction located r in
        let clear =
          step (fails remove_partial) not_removed
            (λ d. record d { dirs = without (partial_of version) d.dirs })
            (clear_final extraction located) r in
        if any_is r.dirs (partial_of version) then clear else go_on

    unfoldable pub stage_new_version : String → Extraction → Located → Root → Outcome
    stage_new_version manifest_version extraction located r =
        let go_on =
          step (fails create_versions) no_versions_dir (λ d. d) (clear_partial extraction located)
            r in
        if str_eq version manifest_version then go_on else (r, err version_mismatch)
