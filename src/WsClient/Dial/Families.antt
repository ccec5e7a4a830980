-- ===== src/WsClient/Dial/Families.antt =====
-- src/ws_client.rs, `interleave_families`: nothing is lost, each family keeps its order, and they
-- alternate.
use bilbycast_gateway_sdk.Base.{
  ℕ, zero, suc, ◌+◌, ◌*◌, ◌<◌, ◌≡◌, refl, Bool, true, false, not, List, [], ◌∷◌, arith, length,
  get_elem?, inl, inr, Bool-cases, All,
}
use bilbycast_gateway_sdk.WsClient.Dial.{bool_eq, where_is, interleave, interleave_families}

other_of : (b c : Bool) → bool_eq c b ≡ true → bool_eq c (not b) ≡ false
other_of true true h = refl
other_of true false h = cc
other_of false true h = cc
other_of false false h = refl

not_other : (b c : Bool) → bool_eq c (not b) ≡ true → bool_eq c b ≡ false
not_other true true h = cc
not_other true false h = refl
not_other false true h = refl
not_other false false h = cc

module _ {ℓ} {A : Type ℓ} (p : A → Bool) where
  -- The lead family and the other one, each found again in the interleaving.
  Pure : Bool → List A → Type 0
  Pure b xs = All (λ x. bool_eq (p x) b ≡ true) xs

  Pure-where_is : (b : Bool) (xs : List A) → Pure b (where_is p b xs)
  unfolding Pure
  Pure-where_is b [] = tt
  Pure-where_is b (x ∷ xs) = elim (Bool-cases (bool_eq (p x) b)) [
    | inl e ↦ rw e (e, Pure-where_is b xs)
    | inr e ↦ rw e (Pure-where_is b xs)
  ]

  lead_of_interleave :
      (b : Bool) (xs ys : List A)
      → Pure b xs
      → Pure (not b) ys
      → where_is p b (interleave xs ys) ≡ xs
  unfolding interleave Pure
  lead_of_interleave b [] [] h k = refl
  lead_of_interleave b (x ∷ xs) [] h k = ground (arith, h.0, lead_of_interleave b xs [] h.1 k)
  lead_of_interleave b [] (y ∷ ys) h k =
      ground (arith, not_other b (p y) k.0, lead_of_interleave b [] ys h k.1)
  lead_of_interleave b (x ∷ xs) (y ∷ ys) h k =
      ground (arith, h.0, not_other b (p y) k.0, lead_of_interleave b xs ys h.1 k.1)

  other_of_interleave :
      (b : Bool) (xs ys : List A)
      → Pure b xs
      → Pure (not b) ys
      → where_is p (not b) (interleave xs ys) ≡ ys
  unfolding interleave Pure
  other_of_interleave b [] [] h k = refl
  other_of_interleave b (x ∷ xs) [] h k =
      ground (arith, other_of b (p x) h.0, other_of_interleave b xs [] h.1 k)
  other_of_interleave b [] (y ∷ ys) h k = ground (arith, k.0, other_of_interleave b [] ys h k.1)
  other_of_interleave b (x ∷ xs) (y ∷ ys) h k =
      ground (arith, other_of b (p x) h.0, k.0, other_of_interleave b xs ys h.1 k.1)

  either_family :
      (lead b : Bool) (xs : List A)
      → where_is p b (interleave (where_is p lead xs) (where_is p (not lead) xs)) ≡ where_is p b xs
  either_family true true xs =
      lead_of_interleave true _ _ (Pure-where_is true xs) (Pure-where_is false xs)
  either_family true false xs =
      other_of_interleave true _ _ (Pure-where_is true xs) (Pure-where_is false xs)
  either_family false true xs =
      other_of_interleave false _ _ (Pure-where_is false xs) (Pure-where_is true xs)
  either_family false false xs =
      lead_of_interleave false _ _ (Pure-where_is false xs) (Pure-where_is true xs)

-- The two families take turns while both last.
interleave-turns {ℓ} :
    {A : Type ℓ} (xs ys : List A) (k : ℕ)
    → k < length xs
    → k < length ys
    → (get_elem? (interleave xs ys) (2 * k) ≡ get_elem? xs k)
      × (get_elem? (interleave xs ys) (2 * k + 1) ≡ get_elem? ys k)
unfolding interleave
interleave-turns [] ys k h h' = absurd (omega arith)
interleave-turns (x ∷ xs) [] k h h' = absurd (omega arith)
interleave-turns (x ∷ xs) (y ∷ ys) zero h h' = (refl, refl)
interleave-turns (x ∷ xs) (y ∷ ys) (suc k) h h' =
    let (e, f) = interleave-turns xs ys k (omega arith) (omega arith) in
    let even : 2 * suc k ≡ suc (suc (2 * k)) = omega arith in
    let odd : 2 * suc k + 1 ≡ suc (suc (2 * k + 1)) = omega arith in (rw even e, rw odd f)

-- The addresses of either family are tried in the order in which the resolver gave them, none more
-- and none fewer.
pub interleave_families-keeps :
    {A : Type 0} (is_ipv6 : A → Bool) (addrs : List A) (b : Bool)
    → where_is is_ipv6 b (interleave_families is_ipv6 addrs) ≡ where_is is_ipv6 b addrs
unfolding interleave_families
interleave_families-keeps is_ipv6 [] b = refl
interleave_families-keeps is_ipv6 (first ∷ addrs) b =
    either_family is_ipv6 (is_ipv6 first) b (first ∷ addrs)

-- While both families have an address left, they take turns, the family of the first address before
-- the other.
pub interleave_families-alternates :
    {A : Type 0} (is_ipv6 : A → Bool) (first : A) (addrs : List A) (k : ℕ)
    → k < length (where_is is_ipv6 (is_ipv6 first) (first ∷ addrs))
    → k < length (where_is is_ipv6 (not (is_ipv6 first)) (first ∷ addrs))
    → let all = first ∷ addrs in
      let out = interleave_families is_ipv6 all in
      (get_elem? out (2 * k) ≡ get_elem? (where_is is_ipv6 (is_ipv6 first) all) k)
      × (get_elem? out (2 * k + 1) ≡ get_elem? (where_is is_ipv6 (not (is_ipv6 first)) all) k)
unfolding interleave_families
interleave_families-alternates is_ipv6 first addrs k h h' =
    let all = first ∷ addrs in
    let lead = is_ipv6 first in
    interleave-turns (where_is is_ipv6 lead all) (where_is is_ipv6 (not lead) all) k h h'
