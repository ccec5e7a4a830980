-- ===== src/Upgrade/Apply/Garbage.antt =====
-- src/upgrade/apply.rs, `gc_versions`: which version directories go.
use mathlib.Core.List.{Permᴰ}
use bilbycast_gateway_sdk.Base.{
  ℕ, ◌≤◌, String, false, ◌≡◌, refl, sym, subst, List, [], ◌∷◌, ◌++◌, arith, Bool-cases,
  Option-cases, map, length, take, drop, All, All-append, All-drop, str_eq, ends_with, inl, inr,
  ◌⊎◌, true, none, some,
}
use bilbycast_gateway_sdk.Upgrade.Manifest.{any_is}
use bilbycast_gateway_sdk.Upgrade.Apply.{
  Found, Aged, newest_first, candidates, gc_versions, name_of,
}
use bilbycast_gateway_sdk.Upgrade.Apply.Newest.{
  AllNewer, newest_first-Descending, newest_first-Permᴰ, take-append-drop, length-take,
  drop_or_full, Descending-AllNewer, newest_first-All,
}

-- No name of `version`.
abbrev pub Others : String → List String → Type 0
Others version names = All (λ name. str_eq name version ≡ false) names

record Spared (version : String) (c : List Aged × List String) : Type 0 where
  aged : All (λ a. str_eq (name_of a) version ≡ false) c.0
  leftovers : Others version c.1

candidates-Spared :
    (version : String) (found : List Found) → Spared version (candidates version found)
unfolding candidates
candidates-Spared version [] = record { aged = tt; leftovers = tt }
candidates-Spared version (f ∷ fs) =
    let v = candidates-Spared version fs in
    elim (Bool-cases (str_eq f.name version)) [
      | inl e ↦ rw (e, candidates) v
      | inr e ↦ elim (Bool-cases (ends_with f.name ".partial")) [
        | inl e' ↦ rw (e, e', candidates) (record { aged = v.aged; leftovers = (e, v.leftovers) })
        | inr e' ↦ elim (Option-cases f.mtime) [
          | inl h ↦ rw (e, e', h, candidates) v
          | inr (t, h) ↦
              rw (e, e', h, candidates) (record { aged = (e, v.aged); leftovers = v.leftovers })
        ]
      ]
    ]

-- How the directories found are told apart, each by its own name and time: the version in use is left
-- out, a leftover of a broken installation is named `.partial`, and what has no time is left alone.
pub data Sorts (version : String) : List Found → List Aged → List String → Type 0 where
  nothing : Sorts version [] [] []
  in_use :
      (f : Found) {fs : List Found} {aged : List Aged} {leftovers : List String}
      → str_eq f.name version ≡ true
      → Sorts version fs aged leftovers
      → Sorts version (f ∷ fs) aged leftovers
  leftover :
      (f : Found) {fs : List Found} {aged : List Aged} {leftovers : List String}
      → str_eq f.name version ≡ false
      → ends_with f.name ".partial" ≡ true
      → Sorts version fs aged leftovers
      → Sorts version (f ∷ fs) aged (f.name ∷ leftovers)
  undated :
      (f : Found) {fs : List Found} {aged : List Aged} {leftovers : List String}
      → str_eq f.name version ≡ false
      → ends_with f.name ".partial" ≡ false
      → f.mtime ≡ none
      → Sorts version fs aged leftovers
      → Sorts version (f ∷ fs) aged leftovers
  dated :
      (f : Found) (t : ℕ) {fs : List Found} {aged : List Aged} {leftovers : List String}
      → str_eq f.name version ≡ false
      → ends_with f.name ".partial" ≡ false
      → f.mtime ≡ some t
      → Sorts version fs aged leftovers
      → Sorts version (f ∷ fs) (record { name = f.name; mtime = t } ∷ aged) leftovers

candidates-Sorts :
    (version : String) (found : List Found)
    → Sorts version found (candidates version found).0 (candidates version found).1
unfolding candidates
candidates-Sorts version [] = nothing
candidates-Sorts version (f ∷ fs) =
    let v = candidates-Sorts version fs in
    elim (Bool-cases (str_eq f.name version)) [
      | inl e ↦ rw (e, candidates) (in_use f e v)
      | inr e ↦ elim (Bool-cases (ends_with f.name ".partial")) [
        | inl e' ↦ rw (e, e', candidates) (leftover f e e' v)
        | inr e' ↦ elim (Option-cases f.mtime) [
          | inl h ↦ simp (e, e', h) (undated f e e' h v)
          | inr (t, h) ↦ simp (e, e', h) (dated f t e e' h v)
        ]
      ]
    ]

map-name_of-Others :
    (version : String) (as' : List Aged)
    → All (λ a. str_eq (name_of a) version ≡ false) as'
    → Others version (map name_of as')
map-name_of-Others version [] v = tt
map-name_of-Others version (a ∷ as') v = (v.0, map-name_of-Others version as' v.1)

Others-any_is :
    (version : String) (names : List String) → Others version names → any_is names version ≡ false
Others-any_is version [] v = refl
Others-any_is version (n ∷ names) v = ground (arith, v.0, Others-any_is version names v.1)

pub gc_versions-Others :
    (version : String) (keep : ℕ) (found : List Found)
    → Others version (gc_versions version keep found)
unfolding gc_versions
gc_versions-Others version keep found =
    let v = candidates-Spared version found in
    let (aged, leftovers) = candidates version found in
    All-append _ leftovers _ v.leftovers (
      map-name_of-Others version (drop keep (newest_first aged))
        (All-drop _ keep (newest_first aged) (newest_first-All _ aged v.aged)))

-- The garbage collection never removes the version in use. It removes every leftover of a broken
-- installation (a directory named `.partial`), and of the other directories that have a time it keeps
-- the newest `keep` (each at least as new as each that goes), or all if there are not that many, and
-- removes the rest. It removes nothing else.
pub gc_versions-keeps :
    (current_version : String) (keep : ℕ) (found : List Found)
    → (any_is (gc_versions current_version keep found) current_version ≡ false)
      × ((kept gone aged : List Aged) × (leftovers : List String) × Sorts current_version found aged
            leftovers
          × (gc_versions current_version keep found ≡ leftovers ++ map name_of gone)
          × Permᴰ (kept ++ gone) aged
          × AllNewer kept gone
          × (length kept ≤ keep)
          × ((gone ≡ []) ⊎ (length kept ≡ keep)))
unfolding gc_versions
gc_versions-keeps current_version keep found =
    let aged = (candidates current_version found).0 in
    let sorted = newest_first aged in
    (
      Others-any_is _ _ (gc_versions-Others current_version keep found),
      (
        take keep sorted,
        drop keep sorted,
        aged,
        (candidates current_version found).1,
        candidates-Sorts current_version found,
        refl,
        subst (λ l. Permᴰ l aged) (sym (take-append-drop keep sorted)) (newest_first-Permᴰ aged),
        Descending-AllNewer keep sorted (newest_first-Descending aged),
        length-take keep sorted,
        drop_or_full keep sorted,
      ),
    )
