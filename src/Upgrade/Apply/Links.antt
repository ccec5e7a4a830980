-- ===== src/Upgrade/Apply/Links.antt =====
-- src/upgrade/apply.rs, `stage_new_version` and `swap_current_symlink`: the link to the version in use,
-- wherever an installation stops.
use bilbycast_gateway_sdk.Base.{
  String, Bool, false, Option, List, ◌≡◌, refl, sym, subst, inl, inr, arith, Bool-cases,
  Option-cases, str_eq, eq_iff,
}
use bilbycast_gateway_sdk.Upgrade.Manifest.{any_is}
use bilbycast_gateway_sdk.Upgrade.Apply.Garbage.{gc_versions-Others}
use bilbycast_gateway_sdk.Upgrade.Archive.{Located, at_top, nested, not_there}
use bilbycast_gateway_sdk.Upgrade.Apply.{
  Root, Call, Extraction, Outcome, Found, is_link_to, partial_of, link_current,
  swap_current_symlink, collect, publish, prepare, unpack, clear_final, clear_partial,
  stage_new_version, without, without_all, gc_versions, link_tmp, rename_link, link_previous,
  rename_final, read_metadata, set_permissions, move_binary, create_partial, remove_final,
  remove_partial, create_versions,
}
use bilbycast_gateway_sdk.Upgrade.Apply.Disk.{
  Present, Kept, Present-without, Present-cons, Apart, Before, Ready, stopped-Kept, step-Kept,
  Linked, is_link_to→eq, any_is-without_all,
}

-- An archive whose entries write nothing outside the partial directory.
abbrev pub StaysInside : Extraction → Type 0
StaysInside extraction = (d : Root) → extraction.touches d ≡ d

module _ (fails : Call → Bool) (version : String) (old : Option String) where
  link_current-Kept :
      (k : Root → Outcome) (r : Root)
      → ((d : Root) → Linked old version d → Kept old version (k d))
      → Ready old version r
      → Kept old version (link_current fails version k r)
  unfolding link_current
  link_current-Kept k r go_on v =
      step-Kept old version (Ready old version) (fails link_tmp) _ _ _ _
        (record { current = v.before.current; present = v.before.present })
        (record {
          before = record { current = v.before.current; present = v.before.present };
          new = v.new;
        })
        (λ d w.
          step-Kept old version (Linked old version) (fails rename_link) _ _ k d w.before
            (record { current = refl; new = w.new }) go_on)

  swap_current_symlink-Kept :
      (k : Root → Outcome) (r : Root)
      → ((d : Root) → Linked old version d → Kept old version (k d))
      → Ready old version r
      → Kept old version (swap_current_symlink fails version k r)
  unfolding swap_current_symlink
  swap_current_symlink-Kept k r go_on v = elim (Option-cases r.current) [
    | inl e ↦ rw (e, swap_current_symlink) (link_current-Kept k r go_on v)
    | inr (c, e) ↦
        rw (e, swap_current_symlink)
          (step-Kept old version (Ready old version) (fails link_previous) _ _ _ _
            (record { current = v.before.current; present = v.before.present })
            (record {
              before = record { current = v.before.current; present = v.before.present };
              new = v.new;
            })
            (λ d w. link_current-Kept k d go_on w))
  ]

  module _ (found : List Found) where
    collect-Kept :
        (r : Root) → Linked old version r → Kept old version (collect fails version found r)
    unfolding collect
    collect-Kept r v = record {
      present =
          subst (λ c. Present c (without_all (gc_versions version 3 found) r.dirs)) (sym v.current)
            (any_is-without_all version (gc_versions version 3 found) r.dirs
              (gc_versions-Others version 3 found) v.new);
      either = inr v.current;
      done = λ h. v.current;
    }

    publish-Kept :
        (r : Root)
        → Apart old version
        → Before old r
        → Kept old version (publish fails version found r)
    unfolding publish
    publish-Kept r apart b =
        let dirs = without (partial_of version) r.dirs in
        step-Kept old version (Ready old version) (fails rename_final) _ _ _ r b
          (record {
            before = record {
              current = b.current;
              present =
                  Present-cons old version dirs
                    (Present-without old (partial_of version) r.dirs apart b.present);
            };
            new = ground (arith, (eq_iff version version).1 refl);
          })
          (λ d w. swap_current_symlink-Kept (collect fails version found) d collect-Kept w)

    prepare-Kept :
        (located : Located) (r : Root)
        → Apart old version
        → Before old r
        → Kept old version (prepare fails version found located r)
    unfolding prepare
    prepare-Kept not_there r apart b = stopped-Kept old version r _ b
    prepare-Kept at_top r apart b =
        step-Kept old version (Before old) (fails read_metadata) _ _ _ r b b (λ d w.
          step-Kept old version (Before old) (fails set_permissions) _ _ _ d w w
            (λ d' w'. publish-Kept d' apart w'))
    prepare-Kept nested r apart b =
        step-Kept old version (Before old) (fails read_metadata) _ _ _ r b b (λ d w.
          step-Kept old version (Before old) (fails set_permissions) _ _ _ d w w (λ d' w'.
            step-Kept old version (Before old) (fails move_binary) _ _ _ d' w' w'
              (λ d'' w''. publish-Kept d'' apart w'')))

    unpack-Kept :
        (extraction : Extraction) (located : Located) (r : Root)
        → StaysInside extraction
        → Apart old version
        → Before old r
        → Kept old version (unpack fails version found extraction located r)
    unfolding unpack
    unpack-Kept extraction located r inside apart b =
        step-Kept old version (Before old) (fails create_partial) _ _ _ r b
          (record {
            current = b.current;
            present = Present-cons old (partial_of version) r.dirs b.present;
          })
          (λ d w.
            let w' : Before old (extraction.touches d) = subst (Before old) (sym (inside d)) w in
            elim (Bool-cases extraction.succeeds) [
              | inl e ↦ rw e (prepare-Kept located (extraction.touches d) apart w')
              | inr e ↦ rw e (stopped-Kept old version (extraction.touches d) _ w')
            ])

    clear_final-Kept :
        (extraction : Extraction) (located : Located) (r : Root)
        → StaysInside extraction
        → Apart old version
        → Before old r
        → Kept old version (clear_final fails version found extraction located r)
    unfolding clear_final
    clear_final-Kept extraction located r inside apart b =
        elim (Bool-cases (any_is r.dirs version)) [
          | inr e ↦ rw (e, clear_final) (unpack-Kept extraction located r inside apart b)
          | inl e ↦ elim (Bool-cases (is_link_to r.current version)) [
            | inl e' ↦
                rw (e, e', clear_final)
                  (record {
                    present = subst (λ c. Present c r.dirs) (sym b.current) b.present;
                    either = inl b.current;
                    done = λ h. is_link_to→eq r.current version e';
                  })
            | inr e' ↦
                rw (e, e', clear_final)
                  (step-Kept old version (Before old) (fails remove_final) _ _ _ r b
                    (record {
                      current = b.current;
                      present =
                          Present-without old version r.dirs
                            (subst (λ c. is_link_to c version ≡ false) b.current e') b.present;
                    })
                    (λ d w. unpack-Kept extraction located d inside apart w))
          ]
        ]

    clear_partial-Kept :
        (extraction : Extraction) (located : Located) (r : Root)
        → StaysInside extraction
        → Apart old version
        → Before old r
        → Kept old version (clear_partial fails version found extraction located r)
    unfolding clear_partial
    clear_partial-Kept extraction located r inside apart b =
        elim (Bool-cases (any_is r.dirs (partial_of version))) [
          | inr e ↦ rw (e, clear_partial) (clear_final-Kept extraction located r inside apart b)
          | inl e ↦
              rw (e, clear_partial)
                (step-Kept old version (Before old) (fails remove_partial) _ _ _ r b
                  (record {
                    current = b.current;
                    present = Present-without old (partial_of version) r.dirs apart b.present;
                  })
                  (λ d w. clear_final-Kept extraction located d inside apart w))
        ]

-- Whichever call of the file system fails first, or none, an installation of an archive whose entries
-- write nothing outside the partial directory (whether its extraction succeeds, and wherever the
-- binary is) leaves the link to the version in use naming the old version or the new one, and a
-- directory that is there, if what it named before was there (and no leftover of an installation of
-- this version); and where it succeeds it names the new version.
pub stage_new_version-Kept :
    (fails : Call → Bool) (version manifest_version : String) (found : List Found)
    (extraction : Extraction) (located : Located) (r : Root)
    → StaysInside extraction
    → Present r.current r.dirs
    → is_link_to r.current (partial_of version) ≡ false
    → Kept r.current version
        (stage_new_version fails version found manifest_version extraction located r)
unfolding stage_new_version
stage_new_version-Kept fails version manifest_version found extraction located r inside present
      apart =
    let b : Before r.current r = record { current = refl; present = present } in
    elim (Bool-cases (str_eq version manifest_version)) [
      | inr e ↦ rw (e, stage_new_version) (stopped-Kept r.current version r _ b)
      | inl e ↦
          rw (e, stage_new_version)
            (step-Kept r.current version (Before r.current) (fails create_versions) _ _ _ r b b
              (λ d w.
                clear_partial-Kept fails version r.current found extraction located d inside apart
                  w))
    ]
