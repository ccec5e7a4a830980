-- ===== src/WsClient/SessionLoop.antt =====
-- src/ws_client.rs, `run_session`, `read_manager`, `drive_session` and `send_bounded`: an authenticated
-- session. The reader and the loop are two futures of one task: an event is one uninterrupted piece of
-- either, of the command worker or of a shutdown, and a session is a sequence of events in any order
-- (that frames are read before silence is judged only leaves some of the orders out). An event that
-- what it names is not ready for changes nothing.
pub mod Trace
pub mod Order
pub mod Shares
pub mod Budget
pub mod Answers
pub mod Closing
pub mod Live
pub mod Endings
pub mod Hearing
pub mod Silence
use bilbycast_gateway_sdk.Base.{
  ℕ, ◌+◌, ◌-◌, ◌/◌, String, len, Bool, true, false, Option, none, some, List, [], ◌∷◌, ◌++◌, ltb,
  leb, if◌then◌else◌, length, Result, ok, err, append, str_eq,
}
use bilbycast_gateway_sdk.Json.{Json, obj}
use bilbycast_gateway_sdk.Envelope.{envelope, parse}
use bilbycast_gateway_sdk.Errors.{SdkError, web_socket}
use bilbycast_gateway_sdk.WsClient.Cadence as Cadence
use bilbycast_gateway_sdk.WsClient.Cadence.{InboundCadence, on_ping, on_frame, dead_for}
use bilbycast_gateway_sdk.WsClient.Inbound.{
  QueuedCommand, CommandQueue, Routed, reply, failed as route_failed, u32_cost, route_inbound,
  max_inbound_ws_bytes, command_queue_bytes,
}
use bilbycast_gateway_sdk.WsClient.Reconnect.{
  ConnectionResult, authenticated_then_closed, authenticated_then_lost, shutdown_requested,
}

abbrev pub inbound_channel_size : ℕ
inbound_channel_size = 256

abbrev pub inbound_budget_bytes : ℕ
inbound_budget_bytes = 20971520

abbrev pub write_stall_limit : ℕ
write_stall_limit = 300

abbrev pub Bytes : Type 0
Bytes = List ℕ

-- What `read.next()` gives: a message of the manager, an error by its text, or the end of the stream.
pub data Incoming : Type 0 where
  ping_frame : Bytes → Incoming
  text_frame : String → Incoming
  close_frame : Option String → Incoming
  binary_frame pong_frame raw_frame : Incoming
  read_error : String → Incoming
  stream_end : Incoming

-- What the reader hands the loop; a text with its share of the budget.
pub data Inbound : Type 0 where
  text : String → ℕ → Inbound
  ping : Bytes → Inbound
  closed : Option String → Inbound
  failed : String → Inbound
  ended : Inbound

pub data Outgoing : Type 0 where
  text_message : String → Outgoing
  pong_message : Bytes → Outgoing

-- How a write ends within its bound: done, refused as the manager has closed, failed, or not in time.
pub data Written : Type 0 where
  sent send_after_closing timed_out : Written
  write_error : String → Written

pub data ReaderPhase : Type 0 where
  reading parked : ReaderPhase
  acquiring : String → ReaderPhase
  sending : Inbound → ReaderPhase

-- The loop at its `select!`, in a write (what it writes, the budget that it holds), or ended.
pub data LoopPhase : Type 0 where
  selecting : LoopPhase
  writing : String → ℕ → LoopPhase
  over : ConnectionResult → LoopPhase

pub record Link : Type 0 where
  pub cadence : InboundCadence
  pub reader : ReaderPhase
  pub channel : List Inbound
  pub budget : ℕ
  pub commands : CommandQueue
  pub loop : LoopPhase

unfoldable pub opened : ℕ → Link
opened now = record {
  cadence = Cadence.new now;
  reader = reading;
  channel = [];
  budget = inbound_budget_bytes;
  commands = record { waiting = []; permits = command_queue_bytes; alive = true };
  loop = selecting;
}

-- Times are of the clock of the cadence, stamps those of an envelope.
pub data Event : Type 0 where
  reads : ℕ → Incoming → Event
  acquires : Event
  hands_over : ℕ → Event
  checks : ℕ → Event
  receives : String → Event
  forwards : String → Event
  beats : String → Event
  write_ends : Written → Event
  worker_takes : Event
  shuts_down : Event

-- What can be seen of it. A session that a shutdown ends writes a Close.
pub data Output : Type 0 where
  read : Incoming → Output
  took : Inbound → Output
  writes : Outgoing → Output
  writes_close : Output
  ends : ConnectionResult → Output

abbrev pub Outcome : Type 0
Outcome = Link × List Output

-- The session's end; everything but a shutdown leaves the socket as it is.
unfoldable pub finish : Link → ConnectionResult → Outcome
finish s shutdown_requested =
    (record s { loop = over shutdown_requested }, ends shutdown_requested ∷ writes_close ∷ [])
finish s r = (record s { loop = over r }, ends r ∷ [])

-- `try_send` of a ping: a full channel drops it.
unfoldable pub offer_ping : List Inbound → Bytes → List Inbound
offer_ping channel data' =
    if ltb (length channel) inbound_channel_size then channel ++ ping data' ∷ [] else channel

-- One turn of the reader on what it read, up to its next wait.
unfoldable pub take_in : Link → ℕ → Incoming → Link
take_in s now (ping_frame data') = record s {
  cadence = on_ping s.cadence now;
  channel = offer_ping s.channel data';
}
take_in s now (text_frame t) = record s { cadence = on_frame s.cadence now; reader = acquiring t }
take_in s now (close_frame f) = record s {
  cadence = on_frame s.cadence now;
  reader = sending (closed f);
}
take_in s now (read_error e) = record s { reader = sending (failed e) }
take_in s now stream_end = record s { reader = sending ended }
take_in s now _ = record s { cadence = on_frame s.cadence now }

unfoldable pub reads_frame : Link → ℕ → Incoming → ReaderPhase → Outcome
reads_frame s now frame reading = (take_in s now frame, read frame ∷ [])
reads_frame s now frame _ = (s, [])

-- `acquire_many_owned`: a text waits for its share of the budget.
unfoldable pub acquire : Link → ReaderPhase → Link
acquire s (acquiring t) =
    let cost = u32_cost (len t) in
    if leb cost s.budget
    then record s { budget = s.budget - cost; reader = sending (text t cost) }
    else s
acquire s _ = s

-- After a text the reader reads on, and times the silence from here; after anything else it parks.
unfoldable pub after_handover : Link → ℕ → Inbound → Link
after_handover s now (text t held) = record s { reader = reading; cadence = on_frame s.cadence now }
after_handover s now _ = record s { reader = parked }

-- `inbound.send`, which waits for room.
unfoldable pub hand_over : Link → ℕ → ReaderPhase → Link
hand_over s now (sending i) =
    if ltb (length s.channel) inbound_channel_size
    then after_handover (record s { channel = s.channel ++ i ∷ [] }) now i
    else s
hand_over s now _ = s

-- The error of a write that did not end in time.
unfoldable pub stalled : String → SdkError
stalled what =
    web_socket
      (append "the manager stopped reading: a " (append what " frame could not be written in 300s"))

unfoldable pub send_bounded : String → Written → Result SdkError (Unit {0})
send_bounded what sent = ok tt
send_bounded what send_after_closing = ok tt
send_bounded what (write_error e) = err (web_socket e)
send_bounded what timed_out = err (stalled what)

-- The worker takes the first command that waits, and its bytes are given back.
unfoldable pub worker_take : CommandQueue → List QueuedCommand → CommandQueue
worker_take q [] = q
worker_take q (c ∷ rest) = record q { waiting = rest; permits = q.permits + c.held }

-- `digits` is the `{}` of a number.
module _ (digits : ℕ → String) where
  unfoldable pub silence_error : ℕ → ℕ → SdkError
  silence_error silent limit =
      let rest =
        append (digits (limit / 1000000000)) "s its pings allow — taking the session for dead" in
      let middle = append "s, past the " rest in
      web_socket
        (append "nothing from the manager for " (append (digits (silent / 1000000000)) middle))

  unfoldable pub check_silence : Link → ℕ → ReaderPhase → Outcome
  check_silence s now reading = elim (dead_for s.cadence now) [
    | none ↦ (s, [])
    | some (silent, limit) ↦ finish s (authenticated_then_lost (silence_error silent limit))
  ]
  check_silence s now _ = (s, [])

abbrev pub is_over : LoopPhase → Bool
is_over (over r) = true
is_over _ = false

-- What the vendor emitted, which is looked at only while nothing inbound waits.
unfoldable pub forward : Link → String → List Inbound → Outcome
forward s frame [] = (record s { loop = writing "outbound" 0 }, writes (text_message frame) ∷ [])
forward s frame (i ∷ rest) = (s, [])

module _ (j : Json) where
  open j use {string}

  -- The name, in an error, of the reply that `route_inbound` writes.
  unfoldable pub reply_name : String → String
  reply_name t = elim (parse j t) [
    | none ↦ "pong"
    | some m ↦ if str_eq m.msg_type "command" then "command_ack" else "pong"
  ]

  -- After `route_inbound` of a text: its budget is given back now, or once its reply is written.
  unfoldable pub after_route : Link → String → ℕ → Routed → Outcome
  after_route s t held (reply frame) =
      (record s { loop = writing (reply_name t) held }, writes (text_message frame) ∷ [])
  after_route s t held (route_failed e) = finish s (authenticated_then_lost e)
  after_route s t held _ = (record s { budget = s.budget + held }, [])

  -- The loop on what it received.
  unfoldable pub handle : Link → String → Inbound → Outcome
  handle s stamp (text t held) =
      let (commands, routed) = route_inbound j stamp s.commands t in
      after_route (record s { commands = commands }) t held routed
  handle s stamp (ping data') =
      (record s { loop = writing "pong" 0 }, writes (pong_message data') ∷ [])
  handle s stamp (closed f) = finish s authenticated_then_closed
  handle s stamp (failed e) = finish s (authenticated_then_lost (web_socket e))
  handle s stamp ended = finish s authenticated_then_closed

  unfoldable pub receive : Link → String → List Inbound → Outcome
  receive s stamp [] = (s, [])
  receive s stamp (i ∷ rest) =
      let (s', out) = handle (record s { channel = rest }) stamp i in (s', took i ∷ out)

  -- The heartbeat, which is looked at only while nothing inbound waits.
  unfoldable pub beat : Link → String → String → List Inbound → Outcome
  beat s stamp version [] =
      let health = obj j (("status", string "ok") ∷ ("version", string version) ∷ []) in
      (
        record s { loop = writing "heartbeat" 0 },
        writes (text_message (envelope j stamp "health" health)) ∷ [],
      )
  beat s stamp version (i ∷ rest) = (s, [])

  unfoldable pub write_end : Link → String → ℕ → Written → Outcome
  write_end s what held w = elim (send_bounded what w) [
    | ok u ↦ (record s { loop = selecting; budget = s.budget + held }, [])
    | err e ↦ finish s (authenticated_then_lost e)
  ]

  -- The loop at its `select!`.
  unfoldable pub by_selecting : Link → String → Event → Outcome
  by_selecting s version (receives stamp) = receive s stamp s.channel
  by_selecting s version (forwards frame) = forward s frame s.channel
  by_selecting s version (beats stamp) = beat s stamp version s.channel
  by_selecting s version _ = (s, [])

  -- The loop in a write.
  unfoldable pub by_writing : Link → String → ℕ → Event → Outcome
  by_writing s what held (write_ends w) = write_end s what held w
  by_writing s what held _ = (s, [])

  unfoldable pub by_loop : Link → String → Event → LoopPhase → Outcome
  by_loop s version e selecting = by_selecting s version e
  by_loop s version e (writing what held) = by_writing s what held e
  by_loop s version e (over r) = (s, [])

-- `run_session`: the reader and the loop raced against each other and a shutdown.
module _ (j : Json) (digits : ℕ → String) (version : String) where
  unfoldable pub by_event : Link → Event → Outcome
  by_event s (reads now frame) = reads_frame s now frame s.reader
  by_event s acquires = (acquire s s.reader, [])
  by_event s (hands_over now) = (hand_over s now s.reader, [])
  by_event s (checks now) = check_silence digits s now s.reader
  by_event s worker_takes = (record s { commands = worker_take s.commands s.commands.waiting }, [])
  by_event s shuts_down = finish s shutdown_requested
  by_event s e = by_loop j s version e s.loop

  unfoldable pub step : Link → Event → Outcome
  step s e = if is_over s.loop then (s, []) else by_event s e

  unfoldable pub run_session : Link → List Event → Outcome
  run_session s [] = (s, [])
  run_session s (e ∷ es) =
      let (s', out) = step s e in let (s'', rest) = run_session s' es in (s'', out ++ rest)
