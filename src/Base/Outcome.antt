-- ===== src/Base/Outcome.antt =====
-- Results of fallible code: a value or an error of the component's own type.
use mathlib.Core.Path.{◌≡◌, refl}
use mathlib.Core.Logic.{◌⊎◌, ◌≢◌, inl, inr}
use mathlib.Core.Option.{Option, none, some}
use mathlib.Core.Bool.{Bool, true, false}

pub data Result {ℓ κ} (E : Type κ) (A : Type ℓ) : Type (ℓ ⊔ κ) where
  ok : A → Result E A
  err : E → Result E A

infixl 5 ◌>>=◌ ◌>>◌
abbrev pub ◌>>=◌ {ℓ κ ν} :
    {E : Type ν} {A : Type ℓ} {B : Type κ} → Result E A → (A → Result E B) → Result E B
ok a >>= f = f a
err e >>= f = err e

abbrev pub ◌>>◌ {κ ν} : {E : Type ν} {B : Type κ} → Result E (Unit {0}) → Result E B → Result E B
m >> k = m >>= λ _. k

-- `if cond { return Err(e) }`
abbrev pub refuse_if {ν} : {E : Type ν} → Bool → E → Result E (Unit {0})
refuse_if true e = err e
refuse_if false e = ok tt

abbrev pub ok_or {ℓ ν} : {E : Type ν} {A : Type ℓ} → Option A → E → Result E A
ok_or none e = err e
ok_or (some a) e = ok a

pub Result-cases {ℓ ν} :
    {E : Type ν} {A : Type ℓ} (r : Result E A) → ((a : A) × (r ≡ ok a)) ⊎ ((e : E) × (r ≡ err e))
Result-cases (ok a) = inl (a, refl)
Result-cases (err e) = inr (e, refl)

-- What a chain that succeeds says of its first step and of the rest.
pub >>-eq-ok {κ ν} :
    {E : Type ν} {B : Type κ} (m : Result E (Unit {0})) (k : Result E B) {b : B}
    → (m >> k) ≡ ok b
    → (m ≡ ok tt) × (k ≡ ok b)
>>-eq-ok (ok u) k h = (refl, h)
>>-eq-ok (err e) k h = cc

-- What it says of a step that yields a value, of a value that has to be there, and of a refusal.
pub >>=-ok_then {ℓ κ ν μ} :
    {E : Type ν} {A : Type ℓ} {B : Type κ} {C : Type μ} (m : Result E A) (f : A → Result E B)
    {b : B}
    → (m >>= f) ≡ ok b
    → ((a : A) → m ≡ ok a → f a ≡ ok b → C)
    → C
>>=-ok_then (ok a) f h k = k a refl h
>>=-ok_then (err e) f h k = cc

pub ok_or-ok_then {ℓ κ ν μ} :
    {E : Type ν} {A : Type ℓ} {B : Type κ} {C : Type μ} (o : Option A) (e : E) (f : A → Result E B)
    {b : B}
    → (ok_or o e >>= f) ≡ ok b
    → ((a : A) → o ≡ some a → f a ≡ ok b → C)
    → C
ok_or-ok_then none e f h k = cc
ok_or-ok_then (some a) e f h k = k a refl h

pub refuse_if-eq-ok {ν} : {E : Type ν} (b : Bool) (e : E) → refuse_if b e ≡ ok tt → b ≡ false
refuse_if-eq-ok true e h = cc
refuse_if-eq-ok false e h = refl

pub not_refused_then {κ ν μ} :
    {E : Type ν} {B : Type κ} {C : Type μ} (p : Bool) (e : E) (k : Result E B) {b : B}
    → (refuse_if p e >> k) ≡ ok b
    → (p ≡ false → k ≡ ok b → C)
    → C
not_refused_then true e k h f = cc
not_refused_then false e k h f = f refl h

pub err≢ok {ℓ ν} : {E : Type ν} {A : Type ℓ} {e : E} {a : A} → err e ≢ ok a
err≢ok h = cc

pub ok-injective {ℓ ν} :
    {E : Type ν} {A : Type ℓ} {a : A} {r : Result E A} {b : A} → r ≡ ok a → r ≡ ok b → a ≡ b
ok-injective g h = cc
