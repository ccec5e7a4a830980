-- ===== src/Tests/Session.antt =====
-- A session at a concrete value: two commands, of which the second waits when the session ends.
use bilbycast_gateway_sdk.Base.{true, ◌≤◌, ◌≡◌, refl, String, some, List, [], ◌∷◌, ◌++◌, ok, length}
use bilbycast_gateway_sdk.Json.{Json}
use bilbycast_gateway_sdk.WsClient.Inbound.{QueuedCommand}
use bilbycast_gateway_sdk.WsClient.Commands.{
  Handler, Event, arrives, turn_granted, takes, finishes, ends, run, fresh, Session, running,
}
use bilbycast_gateway_sdk.WsClient.Commands.Trace.{
  queued_in, started_in, let_go_in, finished_in, in_progress,
}
use bilbycast_gateway_sdk.WsClient.Commands.Order.{run-Follows_fresh, run-over}
use bilbycast_gateway_sdk.WsClient.Commands.Queue.{frame_bytes, run-fresh_bounds}
use bilbycast_gateway_sdk.Tests.SampleJson.{Value, object, string, null, field, end, sample_json}

abbrev command : String → Value
command id = object (
    field "type" (string "command") (
      field "payload"
        (object (field "command_id" (string id) (field "action" (string "reboot") end))) end))

abbrev library : Json
library = sample_json (("first", command "c1") ∷ ("second", command "c2") ∷ [])

abbrev vendor : Handler library
vendor = record { handle_command = λ id action. some (ok null); on_config_request = some null }

abbrev events : List (Event library)
events =
    arrives "t" "first"
    ∷ turn_granted
    ∷ takes
    ∷ arrives "t" "second"
    ∷ ends
    ∷ finishes "t" vendor 2
    ∷ []

abbrev first : QueuedCommand
first = record { id = "c1"; frame = "first"; held = 5 }

run-Follows_fresh_example :
    (queued_in (run library fresh events).1
      ≡ started_in (run library fresh events).1
        ++ let_go_in (run library fresh events).1
        ++ (run library fresh events).0.queue.waiting)
    × (started_in (run library fresh events).1
        ≡ finished_in (run library fresh events).1
          ++ in_progress (run library fresh events).0.phase)
run-Follows_fresh_example = run-Follows_fresh library events

abbrev ended : Session
ended = record {
  queue = record { waiting = []; permits = 20971520; alive = true };
  phase = running first;
  over = true;
}

run-over_example :
    (started_in (run library ended events).1 ≡ [])
    × (in_progress ended.phase
        ≡ finished_in (run library ended events).1
          ++ in_progress (run library ended events).0.phase)
run-over_example = run-over library ended events refl

run-fresh_bounds_example :
    (length (run library fresh events).0.queue.waiting ≤ 64)
    × (frame_bytes (run library fresh events).0.queue.waiting ≤ 20971520)
run-fresh_bounds_example = run-fresh_bounds library events
