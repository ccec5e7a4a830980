-- ===== src/Emit/Emitter.antt =====
-- src/emit.rs, `Emitter` and `GatewayTargetHealth`: the outbound channel that all clones of an emitter
-- share. A send waits until the channel has room, so that what it meets here is a channel that has
-- room or is closed.
use bilbycast_gateway_sdk.Base.{
  ℕ, String, Bool, Option, none, some, List, [], ◌∷◌, ◌++◌, Result, ok, err, if◌then◌else◌,
}
use bilbycast_gateway_sdk.Errors.{SdkError, channel}
use bilbycast_gateway_sdk.Json.{Json, obj}
use bilbycast_gateway_sdk.Envelope.{envelope}
use bilbycast_gateway_sdk.Events.{GatewayEvent, to_payload}
use bilbycast_gateway_sdk.Emit.{CommandError, command_ack_payload, health_with_target}
use bilbycast_gateway_sdk.Upgrade.Verify.{Bytes, ℤ}

pub record GatewayTargetHealth : Type 0 where
  pub reachable : Bool
  pub target_address : String
  pub gateway_host : Option String
  pub gateway_egress_ip : Option String
  pub last_successful_poll_unix : Option ℤ
  pub last_error_code : Option String
  pub consecutive_failures : Option ℕ

-- The receiving end may be gone; `frames` waits for the write task, the oldest first.
pub record Outbound : Type 0 where
  pub is_open : Bool
  pub frames : List String

abbrev pub Sent : Type 0
Sent = Result SdkError (Unit {0}) × Outbound

-- The text of tokio's `SendError`.
abbrev pub closed_text : String
closed_text = "channel closed"

module _ (j : Json) (now : String) where
  open j use {Value, null, string, as_object}

  unfoldable pub send_envelope : String → Value → Outbound → Sent
  unfolding envelope
  send_envelope msg_type payload tx =
      if tx.is_open
      then (ok tt, record tx { frames = tx.frames ++ envelope j now msg_type payload ∷ [] })
      else (err (channel closed_text), tx)

  abbrev pub emit_stats : Value → Outbound → Sent
  emit_stats = send_envelope "stats"

  abbrev pub emit_health : Value → Outbound → Sent
  emit_health = send_envelope "health"

  -- The value of the target, which serde derives, is asked for only where the report is an object.
  unfoldable pub emit_health_with_target :
      (GatewayTargetHealth → Result String Value) → Value → GatewayTargetHealth → Outbound → Sent
  unfolding send_envelope health_with_target
  emit_health_with_target to_value health target tx = elim (as_object health) [
    | none ↦ send_envelope "health" health tx
    | some m ↦ elim (to_value target) [
      | err e ↦ (err (channel e), tx)
      | ok v ↦ send_envelope "health" (health_with_target j health v) tx
    ]
  ]

  unfoldable pub emit_event : GatewayEvent j → Outbound → Sent
  unfolding send_envelope to_payload
  emit_event event = send_envelope "event" (to_payload j event)

  abbrev pub emit_event_raw : Value → Outbound → Sent
  emit_event_raw = send_envelope "event"

  -- `encode` is the standard alphabet of base64.
  unfoldable pub emit_thumbnail : (Bytes → String) → String → Bytes → Outbound → Sent
  unfolding send_envelope
  emit_thumbnail encode flow_id jpeg =
      send_envelope "thumbnail"
        (obj j (("flow_id", string flow_id) ∷ ("image_base64", string (encode jpeg)) ∷ []))

  abbrev pub emit_config_response : Value → Outbound → Sent
  emit_config_response = send_envelope "config_response"

  unfoldable pub emit_ack : String → Result (CommandError j) Value → Outbound → Sent
  unfolding send_envelope command_ack_payload
  emit_ack command_id result = send_envelope "command_ack" (command_ack_payload j command_id result)

  abbrev pub emit_pong : Outbound → Sent
  emit_pong = send_envelope "pong" null
