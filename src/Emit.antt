-- ===== src/Emit.antt =====
-- src/emit.rs and the `CommandError` of src/errors.rs: the payloads of what the gateway sends.
pub mod Acks
pub mod Emitter
use bilbycast_gateway_sdk.Base.{
  String, Bool, true, false, Option, none, some, List, [], ◌∷◌, Result, ok, err, if◌then◌else◌,
  append,
}
use bilbycast_gateway_sdk.Json.{Json, obj}

module _ (j : Json) where
  open j use {Value, Map, string, bool, is_null, object, insert, empty, as_object}

  pub record CommandError : Type 0 where
    pub code : String
    pub message : String
    pub details : Option Value

  unfoldable pub new_error : String → String → CommandError
  new_error code message = record { code = code; message = message; details = none }

  unfoldable pub with_details : CommandError → Value → CommandError
  with_details e details = record e { details = some details }

  unfoldable pub unknown_action : String → CommandError
  unfolding new_error
  unknown_action action = new_error "unknown_action" (append "Unknown action: " action)

  unfoldable pub validation : String → CommandError
  unfolding new_error
  validation message = new_error "validation_error" message

  insert_some : String → Option Value → Map → Map
  insert_some k none m = m
  insert_some k (some v) m = insert k v m

  ack_fields : Result CommandError Value → Map → Map
  unfolding insert_some
  ack_fields (ok value) m =
      let m' = insert "success" (bool true) m in
      if is_null value then m' else insert "data" value m'
  ack_fields (err e) m = insert_some "details" e.details (
      insert "error_code" (string e.code)
        (insert "error" (string e.message) (insert "success" (bool false) m)))

  unfoldable pub command_ack_payload : String → Result CommandError Value → Value
  unfolding ack_fields
  command_ack_payload command_id result =
      object (ack_fields result (insert "command_id" (string command_id) empty))

  -- `emit_health_with_target`: a health report that is no object is sent unchanged.
  unfoldable pub health_with_target : Value → Value → Value
  health_with_target health target = elim (as_object health) [
    | none ↦ health
    | some m ↦ object (insert "gateway_target" target m)
  ]
