-- ===== src/Config/Validation.antt =====
-- src/config.rs, `GatewayConfig::validate`: which configurations it accepts.
use text.Mathlib.TextPositions.{eq_refl}
use mathlib.Core.Bool.{xor}
use bilbycast_gateway_sdk.Base.{
  ℕ, ◌+◌, ◌≤◌, ◌<◌, ◌≡◌, ◌≢◌, refl, ◌↔◌, ◌⊎◌, String, len, Bool, true, false, Option, none, some,
  List, [], ◌∷◌, is_some, length, All, eq_iff, starts_with, ok, >>-eq-ok, arith,
}
use bilbycast_gateway_sdk.Config.{GatewayConfig, check_url, check_urls, validate, contains, secure}

abbrev pub Distinct : List String → Type 0
Distinct [] = Unit {0}
Distinct (u ∷ us) = All (λ v. u ≢ v) us × Distinct us

abbrev NewTo : List String → List String → Type 0
NewTo seen us = All (λ u. contains seen u ≡ false) us

secure_iff :
    (cfg : GatewayConfig) (env : Option String) (url : String)
    → (secure cfg env url ≡ true)
      ↔ ((starts_with url "wss://" ≡ true) ⊎ ((cfg.allow_plaintext_ws ≡ true) × (env ≡ some "1")))
secure_iff cfg none url = ground arith
secure_iff cfg (some v) url = ground (arith, eq_iff v "1", eq_refl "1")

NewTo-cons :
    (x : String) (seen us : List String)
    → NewTo (x ∷ seen) us ↔ (NewTo seen us × All (λ v. x ≢ v) us)
NewTo-cons x seen [] = (λ _. (tt, tt), λ _. tt)
NewTo-cons x seen (u ∷ us) =
    let rest = NewTo-cons x seen us in
    (
      λ h. (
        (ground (arith, h.0), (rest.0 h.1).0),
        (λ e. ground (arith, h.0, (eq_iff x u).1 e), (rest.0 h.1).1),
      ),
      λ h. (ground (arith, h.0.0, h.1.0, eq_iff x u), rest.1 (h.0.1, h.1.1)),
    )

NewTo-nil : (us : List String) → NewTo [] us
NewTo-nil [] = tt
NewTo-nil (u ∷ us) = (refl, NewTo-nil us)

module _ (url_parses : String → Bool) where
  -- What a `manager_urls` entry must be.
  pub record UrlIsValid (cfg : GatewayConfig) (env : Option String) (url : String) : Type 0 where
    pub fits : len url ≤ 2048
    pub secured :
        (starts_with url "wss://" ≡ true) ⊎ ((cfg.allow_plaintext_ws ≡ true) × (env ≡ some "1"))
    pub parses : url_parses url ≡ true

  pub record IsValid (cfg : GatewayConfig) (env : Option String) : Type 0 where
    pub some_url : 1 ≤ length cfg.manager_urls
    pub few_urls : length cfg.manager_urls ≤ 16
    pub urls : All (UrlIsValid cfg env) cfg.manager_urls
    pub distinct : Distinct cfg.manager_urls
    pub device_type_given : 1 ≤ len cfg.device_type
    pub device_type_short : len cfg.device_type ≤ 64
    pub paired : is_some cfg.node_id ≡ is_some cfg.node_secret
    pub authenticates : (is_some cfg.node_id ≡ true) ⊎ (is_some cfg.registration_token ≡ true)
    pub heartbeat_slow : 5000000000 ≤ cfg.heartbeat_interval
    pub heartbeat_fast : cfg.heartbeat_interval < 301000000000

  module _ (cfg : GatewayConfig) (env : Option String) where
    check_url_sound :
        (i : ℕ) (seen : List String) (url : String)
        → check_url url_parses cfg env i seen url ≡ ok tt
        → UrlIsValid cfg env url × (contains seen url ≡ false)
    unfolding check_url
    check_url_sound i seen url h = ground (arith, secure_iff cfg env url)

    check_url_complete :
        (i : ℕ) (seen : List String) (url : String)
        → UrlIsValid cfg env url
        → contains seen url ≡ false
        → check_url url_parses cfg env i seen url ≡ ok tt
    unfolding check_url
    check_url_complete i seen url v fresh = ground (arith, secure_iff cfg env url)

    check_urls_sound :
        (i : ℕ) (seen us : List String)
        → check_urls url_parses cfg env i seen us ≡ ok tt
        → All (UrlIsValid cfg env) us × NewTo seen us × Distinct us
    unfolding check_urls
    check_urls_sound i seen [] h = (tt, tt, tt)
    check_urls_sound i seen (u ∷ us) h =
        let (first, rest) = >>-eq-ok (check_url url_parses cfg env i seen u) _ h in
        let (v, fresh) = check_url_sound i seen u first in
        let (vs, new_to, distinct) = check_urls_sound (i + 1) (u ∷ seen) us rest in
        let (new_to', ne) = (NewTo-cons u seen us).0 new_to in
        ((v, vs), (fresh, new_to'), (ne, distinct))

    check_urls_complete :
        (i : ℕ) (seen us : List String)
        → All (UrlIsValid cfg env) us
        → NewTo seen us
        → Distinct us
        → check_urls url_parses cfg env i seen us ≡ ok tt
    unfolding check_urls
    check_urls_complete i seen [] vs new_to distinct = refl
    check_urls_complete i seen (u ∷ us) vs new_to distinct =
        rw (check_url_complete i seen u vs.0 new_to.0) (
          check_urls_complete (i + 1) (u ∷ seen) us vs.1
            ((NewTo-cons u seen us).1 (new_to.1, distinct.0)) distinct.1)

    validate_sound : validate url_parses cfg env ≡ ok tt → IsValid cfg env
    unfolding validate xor
    validate_sound h =
        let urls : check_urls url_parses cfg env 0 [] cfg.manager_urls ≡ ok tt = ground arith in
        let (vs, _, distinct) = check_urls_sound 0 [] cfg.manager_urls urls in
        record {
          some_url = ground arith;
          few_urls = ground arith;
          urls = vs;
          distinct = distinct;
          device_type_given = ground arith;
          device_type_short = ground arith;
          paired = ground arith;
          authenticates = ground arith;
          heartbeat_slow = ground arith;
          heartbeat_fast = ground arith;
        }

    validate_complete : IsValid cfg env → validate url_parses cfg env ≡ ok tt
    unfolding validate xor
    validate_complete v = ground (
      arith,
      check_urls_complete 0 [] cfg.manager_urls v.urls (NewTo-nil cfg.manager_urls) v.distinct,
    )

-- A configuration validates exactly when it has 1 to 16 distinct manager URLs of at most 2048
-- bytes that parse and are `wss://` (or, where both plaintext keys are set, have any scheme), a device
-- type of 1 to 64 bytes, a node id and a secret together or neither, an id or a registration token,
-- and a heartbeat from 5 s to below 301 s (300 whole seconds). The comments of `GatewayConfig` say
-- characters for these bytes, and `ws://` for any scheme.
pub validate-IsValid :
    (url_parses : String → Bool) (cfg : GatewayConfig) (env : Option String)
    → (validate url_parses cfg env ≡ ok tt) ↔ IsValid url_parses cfg env
validate-IsValid url_parses cfg env =
    (validate_sound url_parses cfg env, validate_complete url_parses cfg env)
