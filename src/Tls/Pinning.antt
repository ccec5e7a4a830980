-- ===== src/Tls/Pinning.antt =====
-- src/tls.rs: a pin accepts the one certificate that it names.
use bilbycast_gateway_sdk.Base.{
  Option, String, sym, inl, inr, Bool-cases, ◌&&◌, ℕ, ◌≡◌, refl, ap, ◌∙◌, ◌↔◌, Bool, true, false,
  some, List, [], ◌∷◌, map, arith, length, All, ok,
}
use bilbycast_gateway_sdk.Tls.{
  trim, trim_start, trim_end, is_nil, build_tls_config, build_pinned_config, TlsMode, Codes, clean,
  utf8_len, to_lower, normalise_fingerprint, hex_colons, codes_eq, verify_server_cert,
  verify_signature, accepted, pinned, is_whitespace,
}
use bilbycast_gateway_sdk.Tls.Hex.{
  IsByte, plain, clean-hex_colons, all_hex-of_lower, all_hex-plain, length-plain, in_pairs-plain,
  plain-inj, codes_eq_refl, codes_eq→≡,
}

clean-trim_start : (s : Codes) → clean (trim_start s) ≡ clean s
clean-trim_start [] = refl
clean-trim_start (c ∷ s) = elim (Bool-cases (is_whitespace c)) [
  | inl e ↦ ground (arith, e, clean-trim_start s)
  | inr e ↦ ground (arith, e)
]

is_nil→≡ : (s : Codes) → is_nil s ≡ true → s ≡ []
is_nil→≡ [] h = refl
is_nil→≡ (c ∷ s) h = cc

clean-trim_end : (s : Codes) → clean (trim_end s) ≡ clean s
clean-trim_end [] = refl
clean-trim_end (c ∷ s) = elim (Bool-cases (is_nil (trim_end s) && is_whitespace c)) [
  | inl e ↦
      let none_left : trim_end s ≡ [] = is_nil→≡ (trim_end s) (ground (arith, e)) in
      let nothing : clean s ≡ [] = sym (clean-trim_end s) ∙ ap clean none_left in
      ground (arith, e, nothing)
  | inr e ↦ ground (arith, e, clean-trim_end s)
]

-- A text spells a digest if its letters and digits, whatever their case, are those of the digest:
-- colons and white space do not count.
abbrev pub Spells : Codes → List ℕ → Type 0
Spells input ds = map to_lower (clean input) ≡ plain ds

Spells-trim : (input : Codes) (ds : List ℕ) → Spells input ds → Spells (trim input) ds
Spells-trim input ds h =
    ap (map to_lower) (clean-trim_end (trim_start input) ∙ clean-trim_start input) ∙ h

normalise-of_Spells :
    (input : Codes) (ds : List ℕ)
    → All IsByte ds
    → length ds ≡ 32
    → Spells input ds
    → normalise_fingerprint input ≡ ok (hex_colons ds)
unfolding normalise_fingerprint
normalise-of_Spells input ds b l h =
    let (hex, width) = all_hex-of_lower (clean input) (plain ds) h (all_hex-plain ds b) in
    let full : utf8_len (clean input) ≡ 64 = omega (arith, width, length-plain ds, l) in
    rw (full, hex, h) (ap ok (in_pairs-plain ds))

not_nil : (s : Codes) (ds : List ℕ) → length ds ≡ 32 → Spells s ds → is_nil s ≡ false
not_nil [] [] l h = absurd (omega (arith, l))
not_nil [] (n ∷ ds) l h = cc
not_nil (c ∷ s) ds l h = refl

hex_colons-inj :
    (ds es : List ℕ) → All IsByte ds → All IsByte es → hex_colons ds ≡ hex_colons es → ds ≡ es
hex_colons-inj ds es b c e =
    plain-inj ds es b c (sym (clean-hex_colons ds b) ∙ ap clean e ∙ clean-hex_colons es c)

module _ {Der Handshake : Type 0} (webpki : Der → Bool) (signature : Der → Handshake → Bool)
    (sha256 : Der → List ℕ) where
  pin_of_verdict :
      (ds : List ℕ) (cert : Der)
      → All IsByte ds
      → All IsByte (sha256 cert)
      → (verify_server_cert webpki signature sha256 (pinned (hex_colons ds)) cert ≡ accepted)
        ↔ ((webpki cert ≡ true) × (sha256 cert ≡ ds))
  unfolding verify_server_cert
  pin_of_verdict ds cert b c = (
    λ h. (
      ground (arith, h),
      hex_colons-inj (sha256 cert) ds c b
          (codes_eq→≡ (hex_colons (sha256 cert)) (hex_colons ds) (ground (arith, h))),
    ),
    λ h.
        (let same : codes_eq (hex_colons (sha256 cert)) (hex_colons ds) ≡ true =
            ap (λ es. codes_eq (hex_colons es) (hex_colons ds)) h.1
            ∙ codes_eq_refl (hex_colons ds) in
          ground (arith, h.0, same)),
  )

-- Whatever the spelling of a 32-byte digest that is configured as the pin, and whatever else is
-- configured, the TLS mode is the pinned one; it accepts exactly the certificates that webpki accepts
-- and whose SHA-256 is that digest, and it takes the handshake's signature only from webpki.
pub build_tls_config-pins :
    {Der Handshake : Type 0} (webpki : Der → Bool) (signature : Der → Handshake → Bool)
    (sha256 : Der → List ℕ) (env : Option String) (accept_self_signed : Bool) (input : Codes)
    (ds : List ℕ) (cert : Der) (message : Handshake)
    → All IsByte ds
    → length ds ≡ 32
    → All IsByte (sha256 cert)
    → Spells input ds
    → (mode : TlsMode) × (build_tls_config true env accept_self_signed (some input) ≡ ok mode)
      × ((verify_server_cert webpki signature sha256 mode cert ≡ accepted)
          ↔ ((webpki cert ≡ true) × (sha256 cert ≡ ds)))
      × (verify_signature webpki signature sha256 mode cert message ≡ signature cert message)
unfolding build_tls_config build_pinned_config verify_signature
build_tls_config-pins webpki signature sha256 env accept input ds cert message b l c h = (
  pinned (hex_colons ds),
  rw
      (
        not_nil (trim input) ds l (Spells-trim input ds h),
        normalise-of_Spells (trim input) ds b l (Spells-trim input ds h),
      )
      refl,
  pin_of_verdict webpki signature sha256 ds cert b c,
  refl,
)
