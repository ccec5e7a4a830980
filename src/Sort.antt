-- ===== src/Sort.antt =====
-- Sorting of numbers as the standard library's `sort_unstable` leaves them, and what the element
-- at an index of the sorted list says of the unsorted one.
use bilbycast_gateway_sdk.Base.{
  ℕ, zero, suc, ◌≤◌, ◌<◌, ◌≡◌, refl, Bool, List, [], ◌∷◌, some, arith, leb, if◌then◌else◌, length,
  get_elem?, count_if, All, All-get_elem?, inl, inr, Bool-cases, leb→le, leb→lt,
}

insert : ℕ → List ℕ → List ℕ
insert x [] = x ∷ []
insert x (y ∷ ys) = if leb x y then x ∷ y ∷ ys else y ∷ insert x ys

unfoldable pub sort : List ℕ → List ℕ
unfolding insert
sort [] = []
sort (x ∷ xs) = insert x (sort xs)

abbrev IsSorted : List ℕ → Type 0
IsSorted [] = Unit {0}
IsSorted (x ∷ xs) = All (λ y. x ≤ y) xs × IsSorted xs

All-le_trans : (a b : ℕ) (xs : List ℕ) → a ≤ b → All (λ y. b ≤ y) xs → All (λ y. a ≤ y) xs
All-le_trans a b [] h all = tt
All-le_trans a b (x ∷ xs) h all = (omega arith, All-le_trans a b xs h all.1)

All-insert : (P : ℕ → Type 0) (x : ℕ) (ys : List ℕ) → P x → All P ys → All P (insert x ys)
unfolding insert
All-insert P x [] h all = (h, tt)
All-insert P x (y ∷ ys) h all = elim (Bool-cases (leb x y)) [
  | inl e ↦ rw e (h, all)
  | inr e ↦ rw e (all.0, All-insert P x ys h all.1)
]

insert-IsSorted : (x : ℕ) (ys : List ℕ) → IsSorted ys → IsSorted (insert x ys)
unfolding insert
insert-IsSorted x [] s = (tt, tt)
insert-IsSorted x (y ∷ ys) s = elim (Bool-cases (leb x y)) [
  | inl e ↦ rw e ((leb→le x y e, All-le_trans x y ys (leb→le x y e) s.0), s)
  | inr e ↦
      let below : y < x = leb→lt x y e in
      rw e (All-insert (λ z. y ≤ z) x ys (omega arith) s.0, insert-IsSorted x ys s.1)
]

sort-IsSorted : (xs : List ℕ) → IsSorted (sort xs)
unfolding sort
sort-IsSorted [] = tt
sort-IsSorted (x ∷ xs) = insert-IsSorted x (sort xs) (sort-IsSorted xs)

count_if-insert :
    (p : ℕ → Bool) (x : ℕ) (ys : List ℕ) → count_if p (insert x ys) ≡ count_if p (x ∷ ys)
unfolding insert
count_if-insert p x [] = refl
count_if-insert p x (y ∷ ys) = ground (arith, count_if-insert p x ys)

-- Sorting keeps how many elements pass a test.
pub count_if-sort : (p : ℕ → Bool) (xs : List ℕ) → count_if p (sort xs) ≡ count_if p xs
unfolding sort
count_if-sort p [] = refl
count_if-sort p (x ∷ xs) = omega (arith, count_if-insert p x (sort xs), count_if-sort p xs)

length-insert : (x : ℕ) (ys : List ℕ) → length (insert x ys) ≡ suc (length ys)
unfolding insert
length-insert x [] = refl
length-insert x (y ∷ ys) = ground (arith, length-insert x ys)

pub length-sort : (xs : List ℕ) → length (sort xs) ≡ length xs
unfolding sort
length-sort [] = refl
length-sort (x ∷ xs) = omega (arith, length-insert x (sort xs), length-sort xs)

pub sort-All : (P : ℕ → Type 0) (xs : List ℕ) → All P xs → All P (sort xs)
unfolding sort
sort-All P [] h = h
sort-All P (x ∷ xs) h = All-insert P x (sort xs) h.0 (sort-All P xs h.1)

abbrev pub at_most : ℕ → ℕ → Bool
at_most g x = leb x g

count_if-at_most_zero :
    (g x : ℕ) (xs : List ℕ) → g < x → All (λ y. x ≤ y) xs → count_if (at_most g) xs ≡ 0
count_if-at_most_zero g x [] h all = refl
count_if-at_most_zero g x (y ∷ ys) h all =
    let above : x ≤ y = all.0 in ground (arith, count_if-at_most_zero g x ys h all.1)

-- In a sorted list the elements that are at most `g` come first.
get_elem?-le_iff :
    (g : ℕ) (xs : List ℕ) (i : ℕ) {v : ℕ}
    → IsSorted xs
    → get_elem? xs i ≡ some v
    → (i < count_if (at_most g) xs → v ≤ g) × (v ≤ g → i < count_if (at_most g) xs)
get_elem?-le_iff g [] i s e = cc
get_elem?-le_iff g (x ∷ xs) zero s e = elim (Bool-cases (leb x g)) [
  | inl h ↦ (λ _. ground (arith, h), λ _. ground (arith, h))
  | inr h ↦
      let above : g < x = leb→lt x g h in
      let none_left : count_if (at_most g) xs ≡ 0 = count_if-at_most_zero g x xs above s.0 in
      (λ l. ground (arith, h), λ l. ground (arith, h))
]
get_elem?-le_iff g (x ∷ xs) (suc i) {v} s e =
    let low : x ≤ v = All-get_elem? (λ y. x ≤ y) xs i s.0 e in
    let ih = get_elem?-le_iff g xs i s.1 e in
    elim (Bool-cases (leb x g)) [
      | inl h ↦ (λ l. ground (arith, h, ih), λ l. ground (arith, h, ih))
      | inr h ↦
          let above : g < x = leb→lt x g h in
          (λ l. ground (arith, h, ih), λ l. absurd (omega arith))
    ]

-- The element at index `i` of the sorted list is at most `g` exactly when more than `i` of the
-- elements are.
pub get_elem?-sort-le :
    (g : ℕ) (xs : List ℕ) (i : ℕ) {v : ℕ}
    → get_elem? (sort xs) i ≡ some v
    → (i < count_if (at_most g) xs → v ≤ g) × (v ≤ g → i < count_if (at_most g) xs)
get_elem?-sort-le g xs i e =
    rw (← count_if-sort (at_most g) xs) (get_elem?-le_iff g (sort xs) i (sort-IsSorted xs) e)
