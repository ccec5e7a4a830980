-- ===== src/Base/Texts.antt =====
-- Tests on texts that the libraries lack.
use Prim.Native.Char.{Char, code}
use Prim.Native.String.{String, [], ◌∷◌, ◌++◌}
use mathlib.Core.Path.{◌≡◌, refl, ap₂, sym, ap, ◌∙◌}
use mathlib.Core.Logic.{◌↔◌, inl, inr}
use mathlib.Core.Bool.{Bool, true, false, ◌||◌, ◌&&◌}
use native.Mathlib.Omega.{arith}
use mathlib.Core.Option.{Option, none, some, some-injective}
use text.Mathlib.Text.{◌==◌}
use text.Mathlib.TextEquality.{eq_iff, Char-path}
use text.Mathlib.TextLemmas.{
  nil-append, cons-append, nil≢cons, tail-eq_of_cons-eq, head-eq_of_cons-eq,
}
use bilbycast_gateway_sdk.Base.Tests.{leb, Bool-cases, Option-cases, if◌then◌else◌, ◌==◌ as ◌=ℕ◌}

unfoldable pub ends_with : String → String → Bool
ends_with [] t = [] == t
ends_with (c ∷ s) t = let rest = ends_with s t in (c ∷ s) == t || rest

ends_with_prefixed : (s t : String) → (ends_with s t ≡ true) → (p : String) × (s ≡ p ++ t)
unfolding ends_with
ends_with_prefixed [] t h = ([], (eq_iff [] t).0 h ∙ sym (nil-append t))
ends_with_prefixed (c ∷ s) t h = elim (Bool-cases ((c ∷ s) == t)) [
  | inl e ↦ ([], (eq_iff (c ∷ s) t).0 e ∙ sym (nil-append t))
  | inr e ↦
      let h' : ends_with s t ≡ true = ground (arith, h, e) in
      let (p, q) = ends_with_prefixed s t h' in (c ∷ p, ap (◌∷◌ c) q ∙ sym (cons-append c p t))
]

prefixed-ends_with : (p s t : String) → s ≡ p ++ t → ends_with s t ≡ true
unfolding ends_with
prefixed-ends_with [] [] t e = (eq_iff [] t).1 (e ∙ nil-append t)
prefixed-ends_with (d ∷ p) [] t e = absurd (nil≢cons (e ∙ cons-append d p t))
prefixed-ends_with [] (c ∷ s) t e = ground (arith, (eq_iff (c ∷ s) t).1 (e ∙ nil-append t))
prefixed-ends_with (d ∷ p) (c ∷ s) t e =
    ground (arith, prefixed-ends_with p s t (tail-eq_of_cons-eq (e ∙ cons-append d p t)))

pub ends_with_iff : (s t : String) → (ends_with s t ≡ true) ↔ ((p : String) × (s ≡ p ++ t))
ends_with_iff s t = (ends_with_prefixed s t, λ h. prefixed-ends_with h.0 s t h.1)

-- `char::is_ascii_hexdigit`
abbrev pub is_ascii_hexdigit : Char → Bool
is_ascii_hexdigit c =
    (leb 48 (code c) && leb (code c) 57)
    || (leb 65 (code c) && leb (code c) 70)
    || (leb 97 (code c) && leb (code c) 102)

abbrev pub all_chars : (Char → Bool) → String → Bool
all_chars p [] = true
all_chars p (c ∷ s) = p c && all_chars p s

abbrev put_back : Char → Option String → Option String
put_back c none = none
put_back c (some s) = some (c ∷ s)

-- `str::strip_suffix` and `str::strip_prefix`
unfoldable pub strip_suffix : String → String → Option String
strip_suffix [] t = if [] == t then some [] else none
strip_suffix (c ∷ s) t =
    let rest = strip_suffix s t in if (c ∷ s) == t then some [] else put_back c rest

unfoldable pub strip_prefix : String → String → Option String
strip_prefix s [] = some s
strip_prefix [] (d ∷ t) = none
strip_prefix (c ∷ s) (d ∷ t) =
    let rest = strip_prefix s t in if code c =ℕ code d then rest else none

put_back-some :
    (c : Char) (o : Option String) (q : String)
    → put_back c o ≡ some q
    → (r : String) × (o ≡ some r) × (q ≡ c ∷ r)
put_back-some c none q h = absurd (ground (arith, h))
put_back-some c (some s) q h = (s, refl, sym (some-injective _ _ h))

pub strip_suffix-append : (s t q : String) → strip_suffix s t ≡ some q → s ≡ q ++ t
unfolding strip_suffix
strip_suffix-append [] t q h = elim (Bool-cases ([] == t)) [
  | inl e ↦
      let none_left : [] ≡ q = some-injective _ _ (ground (arith, e, h)) in
      (eq_iff [] t).0 e ∙ sym (nil-append t) ∙ ap (λ r. r ++ t) none_left
  | inr e ↦ absurd (ground (arith, e, h))
]
strip_suffix-append (c ∷ s) t q h = elim (Bool-cases ((c ∷ s) == t)) [
  | inl e ↦
      let none_left : [] ≡ q = some-injective _ _ (ground (arith, e, h)) in
      (eq_iff (c ∷ s) t).0 e ∙ sym (nil-append t) ∙ ap (λ r. r ++ t) none_left
  | inr e ↦
      let (r, found, is_q) = put_back-some c (strip_suffix s t) q (ground (arith, e, h)) in
      ap (◌∷◌ c) (strip_suffix-append s t r found)
      ∙ sym (cons-append c r t)
      ∙ ap (λ r'. r' ++ t) (sym is_q)
]

pub strip_suffix-none : (s t : String) → strip_suffix s t ≡ none → ends_with s t ≡ false
unfolding strip_suffix ends_with
strip_suffix-none [] t h = ground (arith, h)
strip_suffix-none (c ∷ s) t h = elim (Option-cases (strip_suffix s t)) [
  | inl e ↦ ground (arith, e, h, strip_suffix-none s t e)
  | inr p ↦ absurd (ground (arith, p.1, h))
]

pub strip_prefix-append : (s t r : String) → (strip_prefix s t ≡ some r) ↔ (s ≡ t ++ r)
unfolding strip_prefix
strip_prefix-append s [] r =
    (λ h. some-injective _ _ h ∙ sym (nil-append r), λ h. ap some (h ∙ nil-append r))
strip_prefix-append [] (d ∷ t) r =
    (λ h. absurd (ground (arith, h)), λ h. absurd (nil≢cons (h ∙ cons-append d t r)))
strip_prefix-append (c ∷ s) (d ∷ t) r = (
  λ h. elim (Bool-cases (code c =ℕ code d)) [
    | inl e ↦
        let same : c ≡ d = Char-path c d (ground (arith, e)) in
        let rest : s ≡ t ++ r = (strip_prefix-append s t r).0 (ground (arith, e, h)) in
        ap₂ ◌∷◌ same rest ∙ sym (cons-append d t r)
    | inr e ↦ absurd (ground (arith, e, h))
  ],
  λ h.
      (let eq = h ∙ cons-append d t r in
        let same : code c ≡ code d = ap code (head-eq_of_cons-eq eq) in
        let rest : strip_prefix s t ≡ some r =
          (strip_prefix-append s t r).1 (tail-eq_of_cons-eq eq) in
        ground (arith, same, rest)),
)
