-- ===== src/Tls.antt =====
-- src/tls.rs: the choice of the TLS mode, the spelling of a certificate's fingerprint, and the
-- verifier that pins one. Texts are lists of code points here. The certificate verifier of webpki
-- and SHA-256 are third-party code: the sections' parameters.
pub mod Hex
pub mod Pinning
pub mod Modes
use bilbycast_gateway_sdk.Base.{
  ℕ, ◌+◌, ◌/◌, ◌%◌, String, Bool, true, false, not, ◌&&◌, ◌||◌, Option, none, some, List, [], ◌∷◌,
  ◌++◌, map, ltb, leb, ◌==◌, if◌then◌else◌, str_eq, Result, ok, err, ◌>>=◌, ◌>>◌, refuse_if,
}

abbrev pub Codes : Type 0
Codes = List ℕ

pub data TlsError : Type 0 where
  insecure_not_confirmed : TlsError
  no_verifier : TlsError
  fingerprint_length : ℕ → TlsError
  fingerprint_not_hex : TlsError

-- `char::is_whitespace`
abbrev pub is_whitespace : ℕ → Bool
is_whitespace c =
    (leb 9 c && leb c 13)
    || (c == 32)
    || (c == 133)
    || (c == 160)
    || (c == 5760)
    || (leb 8192 c && leb c 8202)
    || (c == 8232)
    || (c == 8233)
    || (c == 8239)
    || (c == 8287)
    || (c == 12288)

abbrev pub is_hex : ℕ → Bool
is_hex c = (leb 48 c && leb c 57) || (leb 65 c && leb c 70) || (leb 97 c && leb c 102)

abbrev pub to_lower : ℕ → ℕ
to_lower c = if leb 65 c && leb c 90 then c + 32 else c

abbrev pub utf8_width : ℕ → ℕ
utf8_width c = if ltb c 128 then 1 else if ltb c 2048 then 2 else if ltb c 65536 then 3 else 4

abbrev pub utf8_len : Codes → ℕ
utf8_len [] = 0
utf8_len (c ∷ s) = utf8_width c + utf8_len s

abbrev pub all_hex : Codes → Bool
all_hex [] = true
all_hex (c ∷ s) = is_hex c && all_hex s

abbrev pub kept : ℕ → Bool
kept c = not (c == 58) && not (is_whitespace c)

abbrev pub clean : Codes → Codes
clean [] = []
clean (c ∷ s) = let rest = clean s in if kept c then c ∷ rest else rest

-- The chunks of two, with a colon between.
abbrev pub in_pairs : Codes → Codes
in_pairs [] = []
in_pairs (a ∷ []) = a ∷ []
in_pairs (a ∷ b ∷ []) = a ∷ b ∷ []
in_pairs (a ∷ b ∷ c ∷ s) = a ∷ b ∷ 58 ∷ in_pairs (c ∷ s)

unfoldable pub normalise_fingerprint : Codes → Result TlsError Codes
normalise_fingerprint input = do
  refuse_if (not (utf8_len (clean input) == 64)) (fingerprint_length (utf8_len (clean input)))
  refuse_if (not (all_hex (clean input))) fingerprint_not_hex
  ok (in_pairs (map to_lower (clean input)))

abbrev pub hex_digit : ℕ → ℕ
hex_digit n = if ltb n 10 then 48 + n else 87 + n

-- `{byte:02x}`
abbrev pub hex_byte : ℕ → Codes
hex_byte n = hex_digit (n / 16) ∷ hex_digit (n % 16) ∷ []

-- The digest as `fingerprint_hex_colons` writes it.
unfoldable pub hex_colons : List ℕ → Codes
hex_colons [] = []
hex_colons (n ∷ []) = hex_byte n
hex_colons (n ∷ m ∷ ns) = hex_byte n ++ 58 ∷ hex_colons (m ∷ ns)

abbrev pub codes_eq : Codes → Codes → Bool
codes_eq [] [] = true
codes_eq [] (d ∷ t) = false
codes_eq (c ∷ s) [] = false
codes_eq (c ∷ s) (d ∷ t) = (c == d) && codes_eq s t

abbrev pub trim_start : Codes → Codes
trim_start [] = []
trim_start (c ∷ s) = let rest = trim_start s in if is_whitespace c then rest else c ∷ s

abbrev pub is_nil : Codes → Bool
is_nil [] = true
is_nil (c ∷ s) = false

abbrev pub trim_end : Codes → Codes
trim_end [] = []
trim_end (c ∷ s) = let rest = trim_end s in if is_nil rest && is_whitespace c then [] else c ∷ rest

abbrev pub trim : Codes → Codes
trim s = trim_end (trim_start s)

-- What the built client configuration verifies certificates with.
pub data TlsMode : Type 0 where
  standard insecure : TlsMode
  pinned : Codes → TlsMode

-- The variable BILBYCAST_ALLOW_INSECURE, where it is set, is "1".
abbrev pub insecure_confirmed : Option String → Bool
insecure_confirmed none = false
insecure_confirmed (some v) = str_eq v "1"

abbrev pub build_insecure_config : Option String → Result TlsError TlsMode
build_insecure_config env = do
  refuse_if (not (insecure_confirmed env)) insecure_not_confirmed
  ok insecure

-- `has_roots`: the webpki verifier can be built.
unfoldable pub build_pinned_config : Bool → Codes → Result TlsError TlsMode
build_pinned_config has_roots fingerprint = do
  fp ← normalise_fingerprint fingerprint
  refuse_if (not has_roots) no_verifier
  ok (pinned fp)

abbrev pub unpinned : Bool → Option String → Result TlsError TlsMode
unpinned accept_self_signed env =
    if accept_self_signed then build_insecure_config env else ok standard

unfoldable pub build_tls_config :
    Bool → Option String → Bool → Option Codes → Result TlsError TlsMode
build_tls_config has_roots env accept_self_signed none = unpinned accept_self_signed env
build_tls_config has_roots env accept_self_signed (some fp) =
    if is_nil (trim fp)
    then unpinned accept_self_signed env
    else build_pinned_config has_roots (trim fp)

-- What a verifier says of the certificate of a handshake, and of the signature in it.
pub data Verdict : Type 0 where
  accepted rejected_by_webpki fingerprint_mismatch : Verdict

module _ {Der Handshake : Type 0} (webpki : Der → Bool) (signature : Der → Handshake → Bool)
    (sha256 : Der → List ℕ) where
  unfoldable pub verify_server_cert : TlsMode → Der → Verdict
  verify_server_cert standard cert = if webpki cert then accepted else rejected_by_webpki
  verify_server_cert insecure cert = accepted
  verify_server_cert (pinned fp) cert =
      if webpki cert
      then (if codes_eq (hex_colons (sha256 cert)) fp then accepted else fingerprint_mismatch)
      else rejected_by_webpki

  -- The two signature callbacks, which delegate but where nothing is verified.
  unfoldable pub verify_signature : TlsMode → Der → Handshake → Bool
  verify_signature standard cert message = signature cert message
  verify_signature insecure cert message = true
  verify_signature (pinned fp) cert message = signature cert message
