-- ===== src/Tests/Frames.antt =====
-- Frames of the protocol at concrete values.
use bilbycast_gateway_sdk.Base.{◌≡◌, ◌↔◌, String, some, [], ◌∷◌, Result, ok, err}
use bilbycast_gateway_sdk.Json.{Json}
use bilbycast_gateway_sdk.Auth.{parse_auth_response, registered, authenticated}
use bilbycast_gateway_sdk.Auth.Reply.{IsRegisterAck, IsAuthOk, parse_auth_response_iff}
use bilbycast_gateway_sdk.Emit.{CommandError, command_ack_payload}
use bilbycast_gateway_sdk.Emit.Acks.{Acknowledges, command_ack_payload-Acknowledges}
use bilbycast_gateway_sdk.Tests.SampleJson.{Value, object, string, field, end, sample_json}

abbrev ack_text : String
ack_text = "{\"type\":\"register_ack\",\"payload\":{\"node_id\":\"n1\",\"node_secret\":\"s1\"}}"

abbrev ack_frame : Value
ack_frame = object (
    field "type" (string "register_ack") (
      field "payload"
        (object (field "node_id" (string "n1") (field "node_secret" (string "s1") end))) end))

abbrev replies : Json
replies = sample_json ((ack_text, ack_frame) ∷ [])

abbrev debug : String → String
debug s = s

parse_auth_response_iff_example :
    ((parse_auth_response replies debug ack_text ≡ ok (registered "n1" "s1"))
      ↔ IsRegisterAck replies debug ack_text "n1" "s1")
    × ((parse_auth_response replies debug ack_text ≡ ok authenticated)
        ↔ IsAuthOk replies debug ack_text)
parse_auth_response_iff_example = parse_auth_response_iff replies debug ack_text "n1" "s1"

abbrev refused : Result (CommandError replies) Value
refused = err (record { code = "busy"; message = "later"; details = some (string "queue full") })

command_ack_payload-Acknowledges_example :
    Acknowledges replies (command_ack_payload replies "c1" refused) "c1" refused
command_ack_payload-Acknowledges_example = command_ack_payload-Acknowledges replies "c1" refused
