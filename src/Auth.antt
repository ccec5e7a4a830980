-- ===== src/Auth.antt =====
-- src/auth.rs: what the manager's reply to the auth frame means.
pub mod Reply
pub mod Credentials
use bilbycast_gateway_sdk.Base.{
  append, String, Bool, ◌&&◌, Option, none, some, str_eq, is_some, Result, ok, err, if◌then◌else◌,
  ◌>>=◌, ok_or,
}
use bilbycast_gateway_sdk.Errors.{SdkError, auth, json}
use bilbycast_gateway_sdk.Json.{Json, get_str}
use bilbycast_gateway_sdk.Envelope.{payload_of}

pub data AuthOutcome : Type 0 where
  registered : String → String → AuthOutcome
  authenticated : AuthOutcome

abbrev or_else : Option String → Option String → Option String
or_else none o = o
or_else (some s) o = some s

abbrev unwrap_or : Option String → String → String
unwrap_or none d = d
unwrap_or (some s) d = s

-- `debug` is the `{:?}` of a text.
module _ (j : Json) (debug : String → String) where
  open j use {Value, from_str}

  register_ack : Value → Result SdkError AuthOutcome
  register_ack payload = do
    node_id ← ok_or (get_str j payload "node_id") (auth "register_ack missing node_id")
    node_secret ← ok_or (get_str j payload "node_secret") (auth "register_ack missing node_secret")
    ok (registered node_id node_secret)

  auth_error : Value → Value → SdkError
  auth_error v payload = auth (
      unwrap_or
        (or_else (or_else (get_str j payload "error") (get_str j payload "message"))
          (get_str j v "message"))
        "unknown auth error")

  unfoldable pub parse_auth_response : String → Result SdkError AuthOutcome
  unfolding register_ack auth_error
  parse_auth_response text = do
    v ← ok_or (from_str text) json
    let msg_type = unwrap_or (get_str j v "type") ""
    let payload = payload_of j v
    if str_eq msg_type "register_ack"
        then register_ack payload
        else if str_eq msg_type "auth_ok"
        then ok authenticated
        else if str_eq msg_type "auth_error"
        then err (auth_error v payload)
        else err (auth (append "unexpected auth response type: " (debug msg_type)))
