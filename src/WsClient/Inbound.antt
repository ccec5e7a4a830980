-- ===== src/WsClient/Inbound.antt =====
-- src/ws_client.rs, `route_inbound` and `refuse_busy`: how a frame from the manager becomes a command
-- in the worker's queue, a reply, or nothing. A bounded channel is the list of what it holds, and a
-- semaphore the number of its permits.
use bilbycast_gateway_sdk.Base.{
  ℕ, ◌-◌, String, len, Bool, Option, none, some, List, [], ◌∷◌, ◌++◌, ltb, leb, if◌then◌else◌,
  length, str_eq, err,
}
use bilbycast_gateway_sdk.Json.{Json, get_str}
use bilbycast_gateway_sdk.Envelope.{envelope, parse, IncomingMessage}
use bilbycast_gateway_sdk.Errors.{SdkError, channel}
use bilbycast_gateway_sdk.Emit.{new_error, command_ack_payload}

abbrev pub max_inbound_ws_bytes : ℕ
max_inbound_ws_bytes = 5242880

abbrev pub command_queue_size : ℕ
command_queue_size = 64

abbrev pub command_queue_bytes : ℕ
command_queue_bytes = 20971520

abbrev pub busy_error_code : String
busy_error_code = "gateway_busy"

abbrev pub busy_message : String
busy_message =
    "The gateway is still working through earlier commands and did not run this one. Retry once they have finished."

-- `u32::try_from(text.len()).unwrap_or(u32::MAX)`
abbrev pub u32_cost : ℕ → ℕ
u32_cost n = if leb n 4294967295 then n else 4294967295

pub record QueuedCommand : Type 0 where
  pub id : String
  pub frame : String
  pub held : ℕ

-- The channel to the worker, and the permits left of its bytes. `alive`: the worker has its end.
pub record CommandQueue : Type 0 where
  pub waiting : List QueuedCommand
  pub permits : ℕ
  pub alive : Bool

-- What the loop does with a frame: nothing, write a reply, or end the session on an error.
pub data Routed : Type 0 where
  dropped : Routed
  queued : QueuedCommand → Routed
  reply : String → Routed
  failed : SdkError → Routed

-- `Option::unwrap_or("")`
abbrev pub or_empty : Option String → String
or_empty none = ""
or_empty (some s) = s

-- A command joins the queue and takes its share of the bytes.
unfoldable pub push : CommandQueue → QueuedCommand → CommandQueue
push q c = record q { waiting = q.waiting ++ c ∷ []; permits = q.permits - c.held }

module _ (j : Json) where
  open j use {null}

  unfoldable pub refuse_busy : String → String → String
  refuse_busy now id =
      envelope j now "command_ack"
        (command_ack_payload j id (err (new_error j busy_error_code busy_message)))

  -- `try_acquire_many_owned`, then `try_send`: a command for which there is no room is refused and
  -- gives its bytes back.
  unfoldable pub enqueue : String → CommandQueue → String → String → CommandQueue × Routed
  enqueue now q id text =
      let cost = u32_cost (len text) in
      let command : QueuedCommand = record { id = id; frame = text; held = cost } in
      if ltb q.permits cost
      then (q, reply (refuse_busy now id))
      else if q.alive
      then (if leb command_queue_size (length q.waiting)
          then (q, reply (refuse_busy now id))
          else (push q command, queued command))
      else (q, failed (channel "the command worker has stopped"))

  unfoldable pub route_message :
      String → CommandQueue → String → IncomingMessage j → CommandQueue × Routed
  route_message now q text m =
      if str_eq m.msg_type "command"
      then enqueue now q (or_empty (get_str j m.payload "command_id")) text
      else if str_eq m.msg_type "ping"
      then (q, reply (envelope j now "pong" null))
      else (q, dropped)

  unfoldable pub route_inbound : String → CommandQueue → String → CommandQueue × Routed
  route_inbound now q text = elim (parse j text) [
    | none ↦ (q, dropped)
    | some m ↦ route_message now q text m
  ]
