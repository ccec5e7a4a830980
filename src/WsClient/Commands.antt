-- ===== src/WsClient/Commands.antt =====
-- src/ws_client.rs, `run_commands`, `run_command` and `finish_command`, and src/dispatch.rs: how the
-- commands of a session are run. The session loop and the worker are two tasks that share the command
-- queue: an event is one uninterrupted piece of either, and a session is a sequence of events in any
-- order. A task is cancelled only when the runtime shuts down, which takes the session loop along.
pub mod Queue
pub mod Trace
mod Steps
pub mod Order
pub mod Acks
use bilbycast_gateway_sdk.Base.{
  ℕ, ◌+◌, ◌-◌, String, len, Bool, true, false, Option, none, some, List, [], ◌∷◌, ◌++◌, ltb, leb,
  ◌==◌, not, ◌||◌, take, if◌then◌else◌, length, str_eq, Result, ok, err,
}
use bilbycast_gateway_sdk.Json.{Json, get_str}
use bilbycast_gateway_sdk.Envelope.{envelope, parse, IncomingMessage}
use bilbycast_gateway_sdk.Errors.{SdkError, channel}
use bilbycast_gateway_sdk.WsClient.Inbound.{
  max_inbound_ws_bytes, command_queue_size, command_queue_bytes, busy_error_code, busy_message,
  u32_cost, QueuedCommand, CommandQueue, Routed, dropped, queued, reply, failed, or_empty, push,
  refuse_busy, enqueue, route_message, route_inbound,
}
use bilbycast_gateway_sdk.Emit.{CommandError, new_error, command_ack_payload}

abbrev pub panicked_error_code : String
panicked_error_code = "handler_panicked"

abbrev pub panicked_message : String
panicked_message = "The gateway's handler panicked on this command; see the gateway's log."

-- What the worker is at.
pub data Phase : Type 0 where
  waiting_for_turn idle stopped : Phase
  running : QueuedCommand → Phase

pub record Session : Type 0 where
  pub queue : CommandQueue
  pub phase : Phase
  pub over : Bool

abbrev pub fresh : Session
fresh = record {
  queue = record { waiting = []; permits = command_queue_bytes; alive = true };
  phase = waiting_for_turn;
  over = false;
}

module _ (j : Json) where
  open j use {Value, null, as_object, lookup}

  -- The vendor's `CommandHandler` at one call: `none` is a panic.
  pub record Handler : Type 0 where
    pub handle_command : String → Value → Option (Result (CommandError j) Value)
    pub on_config_request : Option Value

  -- The `action` of the frame's payload, `null` where there is none.
  unfoldable pub action_of : String → Value
  action_of frame = elim (parse j frame) [
    | none ↦ null
    | some m ↦ elim (as_object m.payload) [
      | none ↦ null
      | some payload ↦ elim (lookup "action" payload) [ none ↦ null | some a ↦ a ]
    ]
  ]

  unfoldable pub action_is_get_config : Value → Bool
  action_is_get_config action = elim (get_str j action "type") [
    | none ↦ false
    | some t ↦ str_eq t "get_config"
  ]

  unfoldable pub emit_command_ack : String → String → Result (CommandError j) Value → String
  emit_command_ack now id result = envelope j now "command_ack" (command_ack_payload j id result)

  -- The frames that a command's task would put on the outbound channel; `none` if its handler panics.
  unfoldable pub run_command : String → Handler → QueuedCommand → Option (List String)
  run_command now h c =
      let action = action_of c.frame in
      if action_is_get_config action
      then elim h.on_config_request [
        | none ↦ none
        | some cfg ↦
            some (emit_command_ack now c.id (ok null) ∷ envelope j now "config_response" cfg ∷ [])
      ]
      else elim (h.handle_command c.id action) [
        | none ↦ none
        | some result ↦ some (emit_command_ack now c.id result ∷ [])
      ]

  -- What a task has come to; a cancelled one by then has its own frames.
  pub data Joined : Type 0 where
    completed cancelled : Option (List String) → Joined

  abbrev frames_of : Option (List String) → List String
  frames_of none = []
  frames_of (some frames) = frames

  -- The frames of a command that are on the channel at its end, which takes as many as it does before
  -- its receiver is gone (a send that fails is ignored); and whether the worker goes on.
  unfoldable pub finish_command : String → ℕ → QueuedCommand → Joined → List String × Bool
  unfolding emit_command_ack
  finish_command now takes_frames c (completed (some frames)) = (take takes_frames frames, true)
  finish_command now takes_frames c (completed none) = (
    take takes_frames
        (emit_command_ack now c.id (err (new_error j panicked_error_code panicked_message)) ∷ []),
    true,
  )
  finish_command now takes_frames c (cancelled frames) =
      (take takes_frames (frames_of frames), false)

  -- One uninterrupted piece of the session loop or of the worker, with the time stamp it would use.
  pub data Event : Type 0 where
    arrives : String → String → Event
    turn_granted : Event
    takes : Event
    -- The task of the command ends, and so many of its frames went on the channel.
    finishes : String → Handler → ℕ → Event
    -- The runtime shuts down: the session loop is gone, and a task that runs is cancelled.
    cancels : String → Handler → ℕ → Event
    ends : Event

  -- What can be seen of it.
  pub data Output : Type 0 where
    routed : Routed → Output
    started : QueuedCommand → Output
    finished : QueuedCommand → List String → Output
    let_go : List QueuedCommand → Output

  pub take_next : Session → List QueuedCommand → Session × List Output
  take_next s [] = (s, [])
  take_next s (c ∷ rest) = (
    record s {
      queue = record s.queue { waiting = rest; permits = s.queue.permits + c.held };
      phase = running c;
    },
    started c ∷ [],
  )

  -- The end of the session cancels `session_over`: the worker lets the queue go and starts nothing.
  end_phase : Phase → Phase
  end_phase (running c) = running c
  end_phase waiting_for_turn = stopped
  end_phase idle = stopped
  end_phase stopped = stopped

  pub by_phase : Session → Event → Phase → Session × List Output
  unfolding end_phase
  by_phase s (arrives now text) p =
      if s.over
      then (s, [])
      else (let (q, r) = route_inbound j now s.queue text in
          (record s { queue = q }, routed r ∷ []))
  by_phase s turn_granted waiting_for_turn =
      (record s { phase = if s.over then stopped else idle }, [])
  by_phase s turn_granted p = (s, [])
  by_phase s takes idle = if s.over then (s, []) else take_next s s.queue.waiting
  by_phase s takes p = (s, [])
  by_phase s (finishes now h n) (running c) =
      let (frames, goes_on) = finish_command now n c (completed (run_command now h c)) in
      (record s { phase = if s.over || not goes_on then stopped else idle }, finished c frames ∷ [])
  by_phase s (finishes now h n) p = (s, [])
  by_phase s (cancels now h n) (running c) =
      let (frames, goes_on) = finish_command now n c (cancelled (run_command now h c)) in
      if s.over then (record s { phase = stopped }, finished c frames ∷ []) else (
        record {
          queue = record { waiting = []; permits = s.queue.permits; alive = false };
          phase = if goes_on then idle else stopped;
          over = true;
        },
        finished c frames ∷ let_go s.queue.waiting ∷ [],
      )
  by_phase s (cancels now h n) p = (s, [])
  by_phase s ends p = if s.over then (s, []) else (
    record {
      queue = record { waiting = []; permits = s.queue.permits; alive = false };
      phase = end_phase p;
      over = true;
    },
    let_go s.queue.waiting ∷ [],
  )

  pub step : Session → Event → Session × List Output
  unfolding by_phase
  step s e = by_phase s e s.phase

  pub run : Session → List Event → Session × List Output
  run s [] = (s, [])
  run s (e ∷ es) = let (s', out) = step s e in let (s'', rest) = run s' es in (s'', out ++ rest)
