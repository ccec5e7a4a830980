-- ===== src/Envelope.antt =====
-- src/envelope.rs: the envelope of every frame, the two auth frames, and the parse of what comes in.
-- The time stamp, `Utc::now().to_rfc3339()`, is an argument.
pub mod Roundtrip
use bilbycast_gateway_sdk.Base.{ℕ, String, Option, none, some, [], ◌∷◌}
use bilbycast_gateway_sdk.Json.{Json, obj, get_str}

abbrev pub gateway_ws_protocol_version : ℕ
gateway_ws_protocol_version = 1

module _ (j : Json) where
  open j use {Value, null, string, number, get, from_str, to_string}

  -- The value that `envelope` serialises.
  unfoldable pub envelope_value : String → String → Value → Value
  envelope_value now msg_type payload =
      obj j (("type", string msg_type) ∷ ("timestamp", string now) ∷ ("payload", payload) ∷ [])

  unfoldable pub envelope : String → String → Value → String
  unfolding envelope_value
  envelope now msg_type payload = to_string (envelope_value now msg_type payload)

  unfoldable pub register_payload : String → String → String → Value
  register_payload registration_token software_version device_type = obj j (
      ("registration_token", string registration_token)
      ∷ ("software_version", string software_version)
      ∷ ("device_type", string device_type)
      ∷ ("protocol_version", number gateway_ws_protocol_version)
      ∷ [])

  unfoldable pub auth_register : String → String → String → String → String
  unfolding envelope register_payload
  auth_register now registration_token software_version device_type =
      envelope now "auth" (register_payload registration_token software_version device_type)

  unfoldable pub reconnect_payload : String → String → String → String → Value
  reconnect_payload node_id node_secret software_version device_type = obj j (
      ("node_id", string node_id)
      ∷ ("node_secret", string node_secret)
      ∷ ("software_version", string software_version)
      ∷ ("device_type", string device_type)
      ∷ ("protocol_version", number gateway_ws_protocol_version)
      ∷ [])

  unfoldable pub auth_reconnect : String → String → String → String → String → String
  unfolding envelope reconnect_payload
  auth_reconnect now node_id node_secret software_version device_type =
      envelope now "auth" (reconnect_payload node_id node_secret software_version device_type)

  pub record IncomingMessage : Type 0 where
    pub msg_type : String
    pub payload : Value

  -- `v.get("payload").cloned().unwrap_or(Value::Null)`
  unfoldable pub payload_of : Value → Value
  payload_of v = elim (get v "payload") [ none ↦ null | some p ↦ p ]

  unfoldable pub parse : String → Option IncomingMessage
  parse text = elim (from_str text) [
    | none ↦ none
    | some v ↦ elim (get_str j v "type") [
      | none ↦ none
      | some t ↦ some (record { msg_type = t; payload = payload_of v })
    ]
  ]
