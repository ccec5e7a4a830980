-- ===== src/WsClient/Commands/Acks.antt =====
-- src/ws_client.rs, `run_command` and `finish_command`: what the manager hears of a command.
use bilbycast_gateway_sdk.Base.{
  String, Option, none, some, List, [], ◌∷◌, Result, ok, err, if◌then◌else◌,
}
use bilbycast_gateway_sdk.Json.{Json}
use bilbycast_gateway_sdk.Envelope.{envelope}
use bilbycast_gateway_sdk.Emit.{CommandError, new_error}
use bilbycast_gateway_sdk.WsClient.Inbound.{QueuedCommand}
use bilbycast_gateway_sdk.WsClient.Commands.{
  Handler, action_of, action_is_get_config, panicked_error_code, panicked_message,
}

module _ (j : Json) where
  open j use {Value, null}

  -- What a command comes to: a panic is an error of its own.
  abbrev settled : Option (Result (CommandError j) Value) → Result (CommandError j) Value
  settled none = err (new_error j panicked_error_code panicked_message)
  settled (some r) = r

  abbrev config_ack : Option Value → Option (Result (CommandError j) Value)
  config_ack none = none
  config_ack (some cfg) = some (ok null)

  abbrev pub result_of : Handler j → QueuedCommand → Result (CommandError j) Value
  result_of h c =
      if action_is_get_config j (action_of j c.frame)
      then settled (config_ack h.on_config_request)
      else settled (h.handle_command c.id (action_of j c.frame))

  abbrev config_frames : String → Option Value → List String
  config_frames now none = []
  config_frames now (some cfg) = envelope j now "config_response" cfg ∷ []

  abbrev pub after_ack : String → Handler j → QueuedCommand → List String
  after_ack now h c =
      if action_is_get_config j (action_of j c.frame)
      then config_frames now h.on_config_request
      else []
