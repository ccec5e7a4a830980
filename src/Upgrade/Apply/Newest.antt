-- ===== src/Upgrade/Apply/Newest.antt =====
-- src/upgrade/apply.rs, `gc_versions`: the versions from the newest to the oldest.
use mathlib.Core.List.{Permᴰ}
use mathlib.Core.List.Permᴰ.{swap, cons, trans, refl as Permᴰ-refl}
use bilbycast_gateway_sdk.Base.{
  ℕ, ◌≤◌, ◌≡◌, refl, ap, List, [], ◌∷◌, ◌++◌, arith, Bool-cases, length, take, drop, All, All-drop,
  leb, inl, inr, ◌⊎◌, zero, suc,
}
use bilbycast_gateway_sdk.Upgrade.Apply.{Aged, insert_newest, newest_first}

abbrev pub NotNewer : ℕ → Aged → Type 0
NotNewer t a = a.mtime ≤ t

abbrev Descending : List Aged → Type 0
Descending [] = Unit
Descending (a ∷ as') = All (NotNewer a.mtime) as' × Descending as'

NotNewer-le : (t u : ℕ) (as' : List Aged) → t ≤ u → All (NotNewer t) as' → All (NotNewer u) as'
NotNewer-le t u [] h v = tt
NotNewer-le t u (a ∷ as') h v = (omega (arith, v.0), NotNewer-le t u as' h v.1)

insert_newest-NotNewer :
    (t : ℕ) (a : Aged) (as' : List Aged)
    → a.mtime ≤ t
    → All (NotNewer t) as'
    → All (NotNewer t) (insert_newest a as')
unfolding insert_newest
insert_newest-NotNewer t a [] h v = (h, tt)
insert_newest-NotNewer t a (b ∷ bs) h v = elim (Bool-cases (leb b.mtime a.mtime)) [
  | inl e ↦ rw (e, insert_newest) (h, v)
  | inr e ↦ rw (e, insert_newest) (v.0, insert_newest-NotNewer t a bs h v.1)
]

insert_newest-Descending :
    (a : Aged) (as' : List Aged) → Descending as' → Descending (insert_newest a as')
unfolding insert_newest
insert_newest-Descending a [] v = (tt, tt)
insert_newest-Descending a (b ∷ bs) v = elim (Bool-cases (leb b.mtime a.mtime)) [
  | inl e ↦
      rw (e, insert_newest)
        ((ground (arith, e), NotNewer-le b.mtime a.mtime bs (ground (arith, e)) v.0), v)
  | inr e ↦
      rw (e, insert_newest)
        (
          insert_newest-NotNewer b.mtime a bs (ground (arith, e)) v.0,
          insert_newest-Descending a bs v.1,
        )
]

pub newest_first-Descending : (as' : List Aged) → Descending (newest_first as')
unfolding newest_first
newest_first-Descending [] = tt
newest_first-Descending (a ∷ as') =
    insert_newest-Descending a (newest_first as') (newest_first-Descending as')

insert_newest-Permᴰ : (a : Aged) (as' : List Aged) → Permᴰ (insert_newest a as') (a ∷ as')
unfolding insert_newest
insert_newest-Permᴰ a [] = Permᴰ-refl (a ∷ [])
insert_newest-Permᴰ a (b ∷ bs) = elim (Bool-cases (leb b.mtime a.mtime)) [
  | inl e ↦ rw (e, insert_newest) (Permᴰ-refl (a ∷ b ∷ bs))
  | inr e ↦ rw (e, insert_newest) (trans (cons refl (insert_newest-Permᴰ a bs)) (swap refl refl))
]

pub newest_first-Permᴰ : (as' : List Aged) → Permᴰ (newest_first as') as'
unfolding newest_first
newest_first-Permᴰ [] = Permᴰ-refl []
newest_first-Permᴰ (a ∷ as') =
    trans (insert_newest-Permᴰ a (newest_first as')) (cons refl (newest_first-Permᴰ as'))

pub take-append-drop : (n : ℕ) (as' : List Aged) → take n as' ++ drop n as' ≡ as'
take-append-drop zero as' = refl
take-append-drop (suc n) [] = refl
take-append-drop (suc n) (a ∷ as') = ap (◌∷◌ a) (take-append-drop n as')

pub length-take : (n : ℕ) (as' : List Aged) → length (take n as') ≤ n
length-take zero as' = omega arith
length-take (suc n) [] = omega arith
length-take (suc n) (a ∷ as') = omega (arith, length-take n as')

pub drop_or_full : (n : ℕ) (as' : List Aged) → (drop n as' ≡ []) ⊎ (length (take n as') ≡ n)
drop_or_full zero as' = inr refl
drop_or_full (suc n) [] = inl refl
drop_or_full (suc n) (a ∷ as') = elim (drop_or_full n as') [
  | inl e ↦ inl e
  | inr e ↦ inr (ap suc e)
]

-- Each of those that stay is at least as new as each of those that go.
abbrev pub AllNewer : List Aged → List Aged → Type 0
AllNewer [] gone = Unit
AllNewer (a ∷ kept) gone = All (NotNewer a.mtime) gone × AllNewer kept gone

pub Descending-AllNewer :
    (n : ℕ) (as' : List Aged) → Descending as' → AllNewer (take n as') (drop n as')
Descending-AllNewer zero as' v = tt
Descending-AllNewer (suc n) [] v = tt
Descending-AllNewer (suc n) (a ∷ as') v =
    (All-drop (NotNewer a.mtime) n as' v.0, Descending-AllNewer n as' v.1)

insert_newest-All :
    (P : Aged → Type 0) (a : Aged) (as' : List Aged) → P a → All P as' → All P (insert_newest a as')
unfolding insert_newest
insert_newest-All P a [] h v = (h, tt)
insert_newest-All P a (b ∷ bs) h v = elim (Bool-cases (leb b.mtime a.mtime)) [
  | inl e ↦ rw (e, insert_newest) (h, v)
  | inr e ↦ rw (e, insert_newest) (v.0, insert_newest-All P a bs h v.1)
]

pub newest_first-All : (P : Aged → Type 0) (as' : List Aged) → All P as' → All P (newest_first as')
unfolding newest_first
newest_first-All P [] v = tt
newest_first-All P (a ∷ as') v =
    insert_newest-All P a (newest_first as') v.0 (newest_first-All P as' v.1)
