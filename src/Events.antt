-- ===== src/Events.antt =====
-- src/events.rs: events, and the payload that the manager reads. `is_null` is the match on `Value::Null`.
pub mod Payload
use bilbycast_gateway_sdk.Base.{String, Bool, Option, none, some, [], ◌∷◌, if◌then◌else◌}
use bilbycast_gateway_sdk.Json.{Json, obj}

pub data EventSeverity : Type 0 where
  info minor major critical : EventSeverity

abbrev pub as_str : EventSeverity → String
as_str info = "info"
as_str minor = "minor"
as_str major = "major"
as_str critical = "critical"

module _ (j : Json) where
  open j use {Value, Map, null, string, object, is_null, as_object, insert, empty}

  pub record GatewayEvent : Type 0 where
    pub severity : EventSeverity
    pub category : String
    pub message : String
    pub details : Value
    pub flow_id : Option String
    pub input_id : Option String
    pub output_id : Option String

  unfoldable pub new : EventSeverity → String → String → GatewayEvent
  new severity category message = record {
    severity = severity;
    category = category;
    message = message;
    details = null;
    flow_id = none;
    input_id = none;
    output_id = none;
  }

  -- `GatewayEvent::{info, minor, major, critical}`
  abbrev pub new_info : String → String → GatewayEvent
  new_info = new info

  abbrev pub new_minor : String → String → GatewayEvent
  new_minor = new minor

  abbrev pub new_major : String → String → GatewayEvent
  new_major = new major

  abbrev pub new_critical : String → String → GatewayEvent
  new_critical = new critical

  unfoldable pub with_details : GatewayEvent → Value → GatewayEvent
  with_details e details = record e { details = details }

  -- Details that are no object are replaced.
  unfoldable pub coded : Option Map → String → Value
  coded none code = obj j (("error_code", string code) ∷ [])
  coded (some m) code = object (insert "error_code" (string code) m)

  unfoldable pub with_error_code : GatewayEvent → String → GatewayEvent
  with_error_code e code = record e { details = coded (as_object e.details) code }

  unfoldable pub with_flow_id : GatewayEvent → String → GatewayEvent
  with_flow_id e id = record e { flow_id = some id }

  unfoldable pub with_input_id : GatewayEvent → String → GatewayEvent
  with_input_id e id = record e { input_id = some id }

  unfoldable pub with_output_id : GatewayEvent → String → GatewayEvent
  with_output_id e id = record e { output_id = some id }

  -- `if let Some(ref v)`
  unfoldable pub insert_text : String → Option String → Map → Map
  insert_text k none m = m
  insert_text k (some v) m = insert k (string v) m

  unfoldable pub insert_details : Value → Map → Map
  insert_details details m = if is_null details then m else insert "details" details m

  unfoldable pub to_payload : GatewayEvent → Value
  to_payload e =
      let head =
        insert "category" (string e.category)
          (insert "severity" (string (as_str e.severity)) empty) in
      let described = insert_details e.details (insert "message" (string e.message) head) in
      let placed = insert_text "input_id" e.input_id (insert_text "flow_id" e.flow_id described) in
      object (insert_text "output_id" e.output_id placed)
