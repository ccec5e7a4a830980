-- ===== src/Upgrade/Archive.antt =====
-- src/upgrade/apply.rs, `extract_tarball` and `locate_binary`: which entries of an archive are unpacked, and
-- where the binary is found among them. The archive's decoding and the unpacking of an entry are the tar
-- and flate2 libraries'.
use bilbycast_gateway_sdk.Base.{
  String, Bool, true, false, not, ◌&&◌, ◌||◌, Option, none, some, List, [], ◌∷◌, ◌++◌,
  if◌then◌else◌, str_eq,
}

-- A component of a path in an archive.
pub data Component : Type 0 where
  root_dir cur_dir parent_dir : Component
  normal : String → Component

pub data Refusal : Type 0 where
  absolute_path parent_segment would_escape unreadable_entry not_unpacked : Refusal

-- An entry of the archive: its path, or `none` if it cannot be read; and whether it unpacks.
pub record Entry : Type 0 where
  pub path : Option (List Component)
  pub unpacks : Bool

abbrev is_absolute : List Component → Bool
is_absolute (root_dir ∷ cs) = true
is_absolute _ = false

abbrev has_parent : List Component → Bool
has_parent [] = false
has_parent (parent_dir ∷ cs) = true
has_parent (_ ∷ cs) = has_parent cs

-- `Path::join`, of which an absolute path leaves nothing; `.` is no component of what it gives.
abbrev join : List String → List Component → List String
join dest [] = dest
join dest (root_dir ∷ cs) = join [] cs
join dest (cur_dir ∷ cs) = join dest cs
join dest (parent_dir ∷ cs) = join (dest ++ ".." ∷ []) cs
join dest (normal c ∷ cs) = join (dest ++ c ∷ []) cs

abbrev path_starts_with : List String → List String → Bool
path_starts_with p [] = true
path_starts_with [] (d ∷ ds) = false
path_starts_with (c ∷ p) (d ∷ ds) = let rest = path_starts_with p ds in str_eq c d && rest

-- The targets that are unpacked, and why the extraction stops, if it does.
unfoldable pub extract_tarball : List String → List Entry → List (List String) × Option Refusal
extract_tarball dest [] = ([], none)
extract_tarball dest (e ∷ es) =
    let (targets, refusal) = extract_tarball dest es in
    elim e.path [
      | none ↦ ([], some unreadable_entry)
      | some path ↦
          if is_absolute path
          then ([], some absolute_path)
          else if has_parent path
          then ([], some parent_segment)
          else if not (path_starts_with (join dest path) dest)
          then ([], some would_escape)
          else if e.unpacks
          then (join dest path ∷ targets, refusal)
          else ([], some not_unpacked)
    ]

-- Where the binary is: at the top of the archive, or one directory below, in the first that has it.
pub data Located : Type 0 where
  at_top nested not_there : Located

abbrev any : List Bool → Bool
any [] = false
any (b ∷ bs) = b || any bs

unfoldable pub locate_binary : Bool → Option (List Bool) → Located
locate_binary top none = if top then at_top else not_there
locate_binary top (some dirs) = if top then at_top else if any dirs then nested else not_there
