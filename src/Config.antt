-- ===== src/Config.antt =====
-- src/config.rs: the configuration of a gateway, its validation and the reconnect backoff.
-- Durations are nanoseconds. `url::Url::parse` is third-party code: the section's `url_parses` says
-- whether it accepts a text. The environment is an argument.
pub mod Validation
use mathlib.Core.Bool.{xor}
use bilbycast_gateway_sdk.Base.{
  ℕ, zero, suc, ◌+◌, ◌-◌, ◌/◌, min, max, String, len, Bool, true, false, not, ◌&&◌, ◌||◌, Option,
  none, some, List, [], ◌∷◌, ltb, leb, ◌==◌, if◌then◌else◌, is_some, length, get_elem?, str_eq,
  starts_with, Result, ok, err, ◌>>◌, refuse_if,
}
use bilbycast_gateway_sdk.Errors.{
  SdkError, config, no_manager_urls, too_many_manager_urls, manager_url_too_long,
  plaintext_needs_env, plaintext_needs_config, plaintext_needs_both, manager_url_invalid,
  manager_url_duplicate, device_type_length, half_credentials, no_way_to_authenticate,
  heartbeat_out_of_range,
}

pub record ReconnectBackoff : Type 0 where
  pub steps_secs : List ℕ

abbrev pub default_backoff : ReconnectBackoff
default_backoff = record { steps_secs = 1 ∷ 2 ∷ 5 ∷ 10 ∷ 30 ∷ [] }

-- The seconds to wait before the given retry, counted from 1. `none` is the panic of an index out
-- of range.
unfoldable pub delay_for_attempt : ReconnectBackoff → ℕ → Option ℕ
delay_for_attempt b attempt =
    if length b.steps_secs == 0
    then some 5
    else get_elem? b.steps_secs (min (max attempt 1 - 1) (length b.steps_secs - 1))

pub record GatewayConfig : Type 0 where
  pub manager_urls : List String
  pub device_type : String
  pub software_version : String
  pub node_id : Option String
  pub node_secret : Option String
  pub registration_token : Option String
  pub accept_self_signed_cert : Bool
  pub allow_plaintext_ws : Bool
  pub cert_fingerprint : Option String
  pub heartbeat_interval : ℕ
  pub reconnect_backoff : ReconnectBackoff

abbrev pub default_heartbeat : ℕ
default_heartbeat = 15000000000

unfoldable pub minimal : String → String → String → GatewayConfig
minimal manager_url device_type software_version = record {
  manager_urls = manager_url ∷ [];
  device_type = device_type;
  software_version = software_version;
  node_id = none;
  node_secret = none;
  registration_token = none;
  accept_self_signed_cert = false;
  allow_plaintext_ws = false;
  cert_fingerprint = none;
  heartbeat_interval = default_heartbeat;
  reconnect_backoff = default_backoff;
}

-- The variable BILBYCAST_SDK_ALLOW_PLAINTEXT_WS, where it is set, is "1".
abbrev pub plaintext_ws_env_set : Option String → Bool
plaintext_ws_env_set none = false
plaintext_ws_env_set (some v) = str_eq v "1"

abbrev pub contains : List String → String → Bool
contains [] u = false
contains (v ∷ vs) u = str_eq v u || contains vs u

-- The hint of the refusal names the key that is missing.
plaintext_hint : GatewayConfig → Option String → ℕ → String → SdkError
plaintext_hint cfg env i url =
    if cfg.allow_plaintext_ws
    then config (plaintext_needs_env i url)
    else if plaintext_ws_env_set env
    then config (plaintext_needs_config i url)
    else config (plaintext_needs_both i url)

abbrev pub secure : GatewayConfig → Option String → String → Bool
secure cfg env url =
    starts_with url "wss://" || (cfg.allow_plaintext_ws && plaintext_ws_env_set env)

module _ (url_parses : String → Bool) where
  -- The checks of one entry of `manager_urls`, with the entries seen before it.
  check_url : GatewayConfig → Option String → ℕ → List String → String → Result SdkError (Unit {0})
  unfolding plaintext_hint
  check_url cfg env i seen url = do
    refuse_if (ltb 2048 (len url)) (config (manager_url_too_long i))
    refuse_if (not (secure cfg env url)) (plaintext_hint cfg env i url)
    refuse_if (not (url_parses url)) (config (manager_url_invalid i))
    refuse_if (contains seen url) (config (manager_url_duplicate i url))

  check_urls :
      GatewayConfig → Option String → ℕ → List String → List String → Result SdkError (Unit {0})
  check_urls cfg env i seen [] = ok tt
  check_urls cfg env i seen (url ∷ urls) =
      let rest = check_urls cfg env (i + 1) (url ∷ seen) urls in
      do check_url cfg env i seen url; rest

  pub validate : GatewayConfig → Option String → Result SdkError (Unit {0})
  validate cfg env = do
    refuse_if (length cfg.manager_urls == 0) (config no_manager_urls)
    refuse_if (ltb 16 (length cfg.manager_urls))
        (config (too_many_manager_urls (length cfg.manager_urls)))
    check_urls cfg env 0 [] cfg.manager_urls
    refuse_if (len cfg.device_type == 0 || ltb 64 (len cfg.device_type)) (config device_type_length)
    refuse_if (xor (is_some cfg.node_id) (is_some cfg.node_secret)) (config half_credentials)
    refuse_if (not (is_some cfg.node_id) && not (is_some cfg.registration_token))
        (config no_way_to_authenticate)
    let hb_secs = cfg.heartbeat_interval / 1000000000
    refuse_if (not (leb 5 hb_secs && leb hb_secs 300)) (config (heartbeat_out_of_range hb_secs))

abbrev pub has_credentials : GatewayConfig → Bool
has_credentials cfg = is_some cfg.node_id && is_some cfg.node_secret
