-- ===== src/Tests/Reading.antt =====
-- Sessions at concrete values: a ping, a command and a close, read and taken in turns.
use bilbycast_gateway_sdk.Base.{
  ℕ, suc, ◌-◌, arith, ◌≤◌, ◌≡◌, refl, ◌⊎◌, inr, String, true, none, List, [], ◌∷◌, ◌++◌, length,
}
use bilbycast_gateway_sdk.Json.{Json}
use bilbycast_gateway_sdk.WsClient.Cadence.{on_frame, on_ping}
use bilbycast_gateway_sdk.WsClient.Reconnect.{authenticated_then_closed}
use bilbycast_gateway_sdk.WsClient.SessionLoop.{
  Event, reads, acquires, hands_over, receives, write_ends, send_after_closing, ping_frame,
  text_frame, close_frame, opened, run_session, is_over, over, step, by_event, reads_frame, take_in,
  offer_ping, acquire, hand_over, after_handover, by_loop, by_selecting, receive, handle,
}
use bilbycast_gateway_sdk.WsClient.SessionLoop.Trace.{Queued, queue_ops, pending, all_put, all_got}
use bilbycast_gateway_sdk.WsClient.SessionLoop.Order.{run_session-Queued}
use bilbycast_gateway_sdk.WsClient.SessionLoop.Shares.{text_bytes, granted}
use bilbycast_gateway_sdk.WsClient.SessionLoop.Budget.{run_session-budget}
use bilbycast_gateway_sdk.WsClient.SessionLoop.Closing.{rounds}
use bilbycast_gateway_sdk.WsClient.SessionLoop.Endings.{run_session-closes}
use bilbycast_gateway_sdk.WsClient.Cadence.Watchdog.{last_heard}
use bilbycast_gateway_sdk.WsClient.SessionLoop.Hearing.{heard_in}
use bilbycast_gateway_sdk.WsClient.SessionLoop.Silence.{IsLost, run_session-silence}
use bilbycast_gateway_sdk.Tests.SampleJson.{object, string, field, end, sample_json}

abbrev library : Json
library = sample_json (("first", object (field "type" (string "ping") end)) ∷ [])

abbrev digits : ℕ → String
digits n = "n"

abbrev events : List Event
events =
    reads 10 (ping_frame (1 ∷ []))
    ∷ reads 20 (text_frame "first")
    ∷ acquires
    ∷ receives "t"
    ∷ hands_over 30
    ∷ []

run_session-Queued_example :
    Queued []
      (queue_ops (run_session library digits "1.0" (opened 0) events).1)
      (pending (run_session library digits "1.0" (opened 0) events).0)
    × (all_put (queue_ops (run_session library digits "1.0" (opened 0) events).1)
        ≡ all_got (queue_ops (run_session library digits "1.0" (opened 0) events).1)
          ++ pending (run_session library digits "1.0" (opened 0) events).0)
run_session-Queued_example = run_session-Queued library digits "1.0" 0 events

run_session-budget_example :
    (length (run_session library digits "1.0" (opened 0) events).0.channel ≤ 256)
    × (text_bytes (run_session library digits "1.0" (opened 0) events).0.channel ≤ 20971520)
    × ((is_over (run_session library digits "1.0" (opened 0) events).0.loop ≡ true)
        ⊎ (granted (run_session library digits "1.0" (opened 0) events).0 ≡ 20971520))
run_session-budget_example = run_session-budget library digits "1.0" 0 events

run_session-closes_example :
    (run_session library digits "1.0" (run_session library digits "1.0" (opened 0) events).0 (
      reads 50 (close_frame none)
      ∷ write_ends send_after_closing
      ∷ rounds
          (suc (length (run_session library digits "1.0" (opened 0) events).0.channel))
          50
          "t"
          send_after_closing)).0.loop
    ≡ over authenticated_then_closed
unfolding run_session opened step by_event reads_frame take_in offer_ping acquire hand_over
    after_handover by_loop by_selecting receive handle on_frame on_ping
run_session-closes_example =
    run_session-closes library digits "1.0" 0 events 50 "t" send_after_closing none refl refl
      (inr refl)

abbrev pinged_once : List Event
pinged_once = reads 10 (ping_frame (1 ∷ [])) ∷ []

run_session-silence_example :
    IsLost library digits "1.0"
      (run_session library digits "1.0" (opened 0) pinged_once).0
      1300000000000
      (1300000000000 - last_heard 0 (heard_in library digits "1.0" (opened 0) pinged_once))
unfolding run_session step by_event reads_frame take_in opened
run_session-silence_example =
    run_session-silence library digits "1.0" 0 pinged_once 1300000000000 refl refl refl
      (omega arith)
