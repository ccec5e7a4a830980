-- ===== src/Errors.antt =====
-- src/errors.rs: the SDK's error types. A message is the value that its text is formatted from:
-- each text of the source is a constructor that carries what the text interpolates.
use bilbycast_gateway_sdk.Base.{ℕ, String}

-- The messages of `SdkError::Config`, by the check that formats them.
pub data ConfigMessage : Type 0 where
  no_manager_urls : ConfigMessage
  too_many_manager_urls : ℕ → ConfigMessage
  manager_url_too_long : ℕ → ConfigMessage
  -- The hint of the message: which of the two keys is missing.
  plaintext_needs_env : ℕ → String → ConfigMessage
  plaintext_needs_config : ℕ → String → ConfigMessage
  plaintext_needs_both : ℕ → String → ConfigMessage
  manager_url_invalid : ℕ → ConfigMessage
  manager_url_duplicate : ℕ → String → ConfigMessage
  device_type_length : ConfigMessage
  half_credentials : ConfigMessage
  no_way_to_authenticate : ConfigMessage
  heartbeat_out_of_range : ℕ → ConfigMessage
  no_credentials_configured : ConfigMessage
  manager_url_no_host : String → ConfigMessage
  manager_url_no_port : String → ConfigMessage
  invalid_url : ConfigMessage

pub data SdkError : Type 0 where
  config : ConfigMessage → SdkError
  tls : String → SdkError
  web_socket : String → SdkError
  auth : String → SdkError
  auth_timeout : SdkError
  credentials_io : String → SdkError
  channel : String → SdkError
  json : SdkError
  io : SdkError
  shutdown : SdkError
  other : String → SdkError
