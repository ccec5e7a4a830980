-- ===== src/WsClient/Dial/InFlight.antt =====
-- src/ws_client.rs, `connect_staggered`: the attempts in flight.
use bilbycast_gateway_sdk.Base.{
  subst, ℕ, ◌+◌, ◌<◌, ◌≡◌, refl, some, List, [], ◌∷◌, ◌++◌, arith, length, inl, inr, Bool-cases,
  All, All-append, ◌==◌,
}
use bilbycast_gateway_sdk.WsClient.Dial.{address_of, without}

module _ {Addr : Type 0} where
  -- The attempts stand in the order of their starts, which are numbered from 0.
  unfoldable pub Inc : List (ℕ × Addr) → ℕ → Type 0
  Inc [] hi = Unit {0}
  Inc (x ∷ r) hi = (x.0 < hi) × All (λ y. x.0 < y.0) r × Inc r hi

  pub Inc-append :
      (fl : List (ℕ × Addr)) (hi : ℕ) (a : Addr) → Inc fl hi → Inc (fl ++ (hi, a) ∷ []) (hi + 1)
  unfolding Inc
  Inc-append [] hi a v = (omega arith, tt, tt)
  Inc-append (x ∷ r) hi a v = (
    omega (arith, v.0),
    All-append (λ y. x.0 < y.0) r ((hi, a) ∷ []) v.1 (v.0, tt),
    Inc-append r hi a v.2,
  )

  pub All-without :
      (P : ℕ × Addr → Type 0) (seq : ℕ) (r : List (ℕ × Addr)) → All P r → All P (without seq r)
  All-without P seq [] h = tt
  All-without P seq ((n, a) ∷ r) h = elim (Bool-cases (n == seq)) [
    | inl e ↦ rw e (All-without P seq r h.1)
    | inr e ↦ rw e (h.0, All-without P seq r h.1)
  ]

  pub Inc-without : (seq : ℕ) (r : List (ℕ × Addr)) (hi : ℕ) → Inc r hi → Inc (without seq r) hi
  unfolding Inc
  Inc-without seq [] hi v = tt
  Inc-without seq ((n, a) ∷ r) hi v = elim (Bool-cases (n == seq)) [
    | inl e ↦ rw e (Inc-without seq r hi v.2)
    | inr e ↦ rw e (v.0, All-without (λ y. n < y.0) seq r v.1, Inc-without seq r hi v.2)
  ]

  pub length-without_later :
      (seq : ℕ) (r : List (ℕ × Addr)) → All (λ y. seq < y.0) r → length (without seq r) ≡ length r
  length-without_later seq [] h = refl
  length-without_later seq ((n, a) ∷ r) h = ground (arith, h.0, length-without_later seq r h.1)

  pub length-without :
      (seq : ℕ) (r : List (ℕ × Addr)) (hi : ℕ) (a : Addr)
      → Inc r hi
      → address_of seq r ≡ some a
      → length (without seq r) + 1 ≡ length r
  unfolding Inc
  length-without seq [] hi a v h = cc
  length-without seq ((n, b) ∷ r) hi a v h = elim (Bool-cases (n == seq)) [
    | inl e ↦
        let same : n ≡ seq = ground (arith, e) in
        let later : All (λ y. seq < y.0) r = subst (λ i. All (λ y. i < y.0) r) same v.1 in
        ground (arith, e, length-without_later seq r later)
    | inr e ↦
        let found : address_of seq r ≡ some a = ground (arith, e, h) in
        ground (arith, e, length-without seq r hi a v.2 found)
  ]
