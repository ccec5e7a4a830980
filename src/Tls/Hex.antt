-- ===== src/Tls/Hex.antt =====
-- src/tls.rs: hexadecimal digits of a digest.
use bilbycast_gateway_sdk.Base.{
  ℕ, ◌*◌, ◌/◌, ◌%◌, ◌<◌, ◌≡◌, refl, ap, ap₂, ◌∙◌, true, List, [], ◌∷◌, ◌++◌, map, arith, length,
  All,
}
use bilbycast_gateway_sdk.Tls.{
  Codes, clean, in_pairs, all_hex, utf8_len, to_lower, kept, is_hex, hex_digit, hex_byte,
  hex_colons, codes_eq, utf8_width,
}

abbrev pub IsByte : ℕ → Type 0
IsByte n = n < 256

-- The digits without colons.
abbrev pub plain : List ℕ → Codes
plain [] = []
plain (n ∷ ns) = hex_byte n ++ plain ns

pub hex_digit-kept : (n : ℕ) → n < 16 → kept (hex_digit n) ≡ true
hex_digit-kept n h = ground arith

pub hex_digit-is_hex : (n : ℕ) → n < 16 → is_hex (hex_digit n) ≡ true
hex_digit-is_hex n h = ground arith

pub hex_digit-to_lower : (n : ℕ) → n < 16 → to_lower (hex_digit n) ≡ hex_digit n
hex_digit-to_lower n h = ground arith

pub hex_digit-utf8_width : (n : ℕ) → n < 16 → utf8_width (hex_digit n) ≡ 1
hex_digit-utf8_width n h = ground arith

pub hex_digit-inj : (n m : ℕ) → n < 16 → m < 16 → hex_digit n ≡ hex_digit m → n ≡ m
hex_digit-inj n m h k e = ground arith

pub is_hex-of_lower : (c : ℕ) → is_hex (to_lower c) ≡ true → (is_hex c ≡ true) × (utf8_width c ≡ 1)
is_hex-of_lower c h = (ground arith, ground arith)

pub byte_digits : (n : ℕ) → IsByte n → (n / 16 < 16) × (n % 16 < 16)
byte_digits n h = (omega arith, omega arith)

pub clean-plain : (ds : List ℕ) → All IsByte ds → clean (plain ds) ≡ plain ds
clean-plain [] b = refl
clean-plain (n ∷ ds) b =
    let (high, low) = byte_digits n b.0 in
    rw (hex_digit-kept (n / 16) high, hex_digit-kept (n % 16) low, clean-plain ds b.1) refl

pub clean-hex_colons : (ds : List ℕ) → All IsByte ds → clean (hex_colons ds) ≡ plain ds
unfolding hex_colons
clean-hex_colons [] b = refl
clean-hex_colons (n ∷ []) b = clean-plain (n ∷ []) b
clean-hex_colons (n ∷ m ∷ ds) b =
    let (high, low) = byte_digits n b.0 in
    rw (hex_digit-kept (n / 16) high, hex_digit-kept (n % 16) low, clean-hex_colons (m ∷ ds) b.1)
      refl

pub all_hex-of_lower :
    (s t : Codes)
    → map to_lower s ≡ t
    → all_hex t ≡ true
    → (all_hex s ≡ true) × (utf8_len s ≡ length t)
all_hex-of_lower [] [] e h = (refl, refl)
all_hex-of_lower [] (d ∷ t) e h = cc
all_hex-of_lower (c ∷ s) [] e h = cc
all_hex-of_lower (c ∷ s) (d ∷ t) e h =
    let head : to_lower c ≡ d = cc in
    let tail : map to_lower s ≡ t = cc in
    let hex : is_hex d ≡ true = ground (arith, h) in
    let hex' : is_hex (to_lower c) ≡ true = ap is_hex head ∙ hex in
    let (first, width) = is_hex-of_lower c hex' in
    let (rest, len_rest) = all_hex-of_lower s t tail (ground (arith, h)) in
    (ground (arith, first, rest), omega (arith, width, len_rest))

pub all_hex-plain : (ds : List ℕ) → All IsByte ds → all_hex (plain ds) ≡ true
all_hex-plain [] b = refl
all_hex-plain (n ∷ ds) b =
    let (high, low) = byte_digits n b.0 in
    rw (hex_digit-is_hex (n / 16) high, hex_digit-is_hex (n % 16) low) (all_hex-plain ds b.1)

pub length-plain : (ds : List ℕ) → length (plain ds) ≡ 2 * length ds
length-plain [] = refl
length-plain (n ∷ ds) = omega (arith, length-plain ds)

pub in_pairs-plain : (ds : List ℕ) → in_pairs (plain ds) ≡ hex_colons ds
unfolding hex_colons
in_pairs-plain [] = refl
in_pairs-plain (n ∷ []) = refl
in_pairs-plain (n ∷ m ∷ ds) =
    ap (λ s. hex_digit (n / 16) ∷ hex_digit (n % 16) ∷ 58 ∷ s) (in_pairs-plain (m ∷ ds))

pub plain-inj : (ds es : List ℕ) → All IsByte ds → All IsByte es → plain ds ≡ plain es → ds ≡ es
plain-inj [] [] b c e = refl
plain-inj [] (m ∷ es) b c e = cc
plain-inj (n ∷ ds) [] b c e = cc
plain-inj (n ∷ ds) (m ∷ es) b c e =
    let (high, low) = byte_digits n b.0 in
    let (high', low') = byte_digits m c.0 in
    let first : hex_digit (n / 16) ≡ hex_digit (m / 16) = cc in
    let second : hex_digit (n % 16) ≡ hex_digit (m % 16) = cc in
    let rest : plain ds ≡ plain es = cc in
    let quotient = hex_digit-inj (n / 16) (m / 16) high high' first in
    let remainder = hex_digit-inj (n % 16) (m % 16) low low' second in
    let same : n ≡ m = omega (arith, quotient, remainder) in
    ap₂ ◌∷◌ same (plain-inj ds es b.1 c.1 rest)

pub codes_eq_refl : (s : Codes) → codes_eq s s ≡ true
codes_eq_refl [] = refl
codes_eq_refl (c ∷ s) = ground (arith, codes_eq_refl s)

pub codes_eq→≡ : (s t : Codes) → codes_eq s t ≡ true → s ≡ t
codes_eq→≡ [] [] h = refl
codes_eq→≡ [] (d ∷ t) h = cc
codes_eq→≡ (c ∷ s) [] h = cc
codes_eq→≡ (c ∷ s) (d ∷ t) h =
    let same : c ≡ d = ground arith in ap₂ ◌∷◌ same (codes_eq→≡ s t (ground arith))
