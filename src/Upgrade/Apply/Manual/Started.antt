-- ===== src/Upgrade/Apply/Manual/Started.antt =====
-- src/upgrade/apply.rs, `manual_apply_pending`: what a success has started.
use bilbycast_gateway_sdk.Base.{
  String, List, subst, sym, ok-injective, Bool, true, false, not, some, ◌≡◌, refl, inl, inr, arith,
  Option-cases, Result-cases, ok, err, err≢ok, ok_or-ok_then, not_refused_then,
}
use bilbycast_gateway_sdk.Upgrade.Manifest.{any_is}
use bilbycast_gateway_sdk.Upgrade.State.{
  pending_health, InstallState, StateFile, holds, Faults, load, save,
}
use bilbycast_gateway_sdk.Upgrade.Apply.{
  Root, ApplyError, Call, link_tmp, rename_link, link_previous, Outcome, step, swap_current_symlink,
  link_current,
}
use bilbycast_gateway_sdk.Upgrade.Apply.Manual.{
  answer, is_staged_manual, disk_of, pending, finish, manual_apply_pending,
}

-- A call that is followed by others has succeeded where they have.
step-ok :
    (P : Root → Type 0) (failed : Bool) (e : ApplyError) (change : Root → Root) (k : Root → Outcome)
    (r : Root)
    → ((k (change r)).1 ≡ ok tt → P (k (change r)).0)
    → (step failed e change k r).1 ≡ ok tt
    → P (step failed e change k r).0
unfolding step
step-ok P true e change k r go_on h = absurd (err≢ok h)
step-ok P false e change k r go_on h = go_on h

-- The link names the version, and no version has come or gone.
pub record Swapped (version : String) (dirs : List String) (r : Root) : Type 0 where
  pub names : r.current ≡ some version
  pub kept : r.dirs ≡ dirs

abbrev pub done : Root → Outcome
done d = (d, ok tt)

module _ (fails : Call → Bool) (version : String) where
  link_current-ok :
      (r : Root)
      → (link_current fails version done r).1 ≡ ok tt
      → Swapped version r.dirs (link_current fails version done r).0
  unfolding link_current
  link_current-ok r =
      let P = Swapped version r.dirs in
      step-ok P (fails link_tmp) _ _ _ _
        (step-ok P (fails rename_link) _ _ done _ (λ h. record { names = refl; kept = refl }))

  swap_current_symlink-ok :
      (r : Root)
      → (swap_current_symlink fails version done r).1 ≡ ok tt
      → Swapped version r.dirs (swap_current_symlink fails version done r).0
  unfolding swap_current_symlink
  swap_current_symlink-ok r = elim (Option-cases r.current) [
    | inl e ↦ rw (e, swap_current_symlink) (link_current-ok r)
    | inr (c, e) ↦
        rw (e, swap_current_symlink)
          (step-ok (Swapped version r.dirs) (fails link_previous) _ _ _ _
            (λ h. link_current-ok _ h))
  ]

-- What is pending: a state that was staged for a manual start, of a version that is there.
pub record IsPending (r : Root) (file : StateFile) (s : InstallState) : Type 0 where
  pub holds_it : load (disk_of r file) ≡ some s
  pub staged : is_staged_manual s.status ≡ true
  pub there : any_is r.dirs s.current_version ≡ true

pending-IsPending :
    (r : Root) (file : StateFile) (s : InstallState) → pending r file ≡ ok s → IsPending r file s
unfolding pending
pending-IsPending r file s h = ok_or-ok_then (load (disk_of r file)) _ _ h (λ t l h1.
    not_refused_then (not (is_staged_manual t.status)) _ _ h1 (λ st h2.
      not_refused_then (not (any_is r.dirs t.current_version)) _ _ h2 (λ dir h3.
        subst (IsPending r file) (ok-injective refl h3)
          (record { holds_it = l; staged = ground (arith, st); there = ground (arith, dir) }))))

abbrev pub started : InstallState → InstallState
started s = record s { status = pending_health; boot_attempts = 0 }

answer-ok : (b : Bool) → answer b ≡ ok tt → b ≡ true
answer-ok true h = refl
answer-ok false h = absurd (err≢ok h)

finish-ok :
    (f : Faults) (s : InstallState) (file : StateFile) (o : Outcome)
    → (finish f s file o).1 ≡ ok tt
    → (o.1 ≡ ok tt)
      × ((finish f s file o).0.1 ≡ holds (started s))
      × ((finish f s file o).0.0 ≡ o.0)
unfolding finish save
finish-ok f s file (r, err e) h = absurd (err≢ok h)
finish-ok f s file (r, ok tt) h = let e = answer-ok f.saves h in (refl, rw e refl, refl)

-- Where a manual start succeeds, the state was one staged for it whose version is there; the link now
-- names that version, no version has come or gone, and the state waits for its health with no attempt
-- counted.
pub manual_apply_pending-starts :
    (fails : Call → Bool) (f : Faults) (r : Root) (file : StateFile)
    → (manual_apply_pending fails f r file).1 ≡ ok tt
    → (s : InstallState) × IsPending r file s
      × Swapped s.current_version r.dirs (manual_apply_pending fails f r file).0.0
      × ((manual_apply_pending fails f r file).0.1 ≡ holds (started s))
unfolding manual_apply_pending
manual_apply_pending-starts fails f r file = elim (Result-cases (pending r file)) [
  | inr (e, p) ↦ rw (p, manual_apply_pending) (λ h. absurd (err≢ok h))
  | inl (s, p) ↦
      rw (p, manual_apply_pending)
        (λ h.
          let swap = swap_current_symlink fails s.current_version done r in
          let (succeeded, written, root) = finish-ok f s file swap h in
          (
            s,
            pending-IsPending r file s p,
            subst (Swapped s.current_version r.dirs) (sym root)
                (swap_current_symlink-ok fails s.current_version r succeeded),
            written,
          ))
]
