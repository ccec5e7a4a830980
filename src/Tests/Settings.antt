-- ===== src/Tests/Settings.antt =====
-- Configurations, the reconnect loop and the cadence of a session at concrete values.
use bilbycast_gateway_sdk.Base.{
  count_if, ℕ, ◌<◌, ◌≤◌, ◌≡◌, ◌↔◌, refl, String, Bool, false, none, some, List, [], ◌∷◌, ok, arith,
  inr, get_elem?, length, ◌%◌, min, ◌-◌, ◌*◌, starts_with,
}
use bilbycast_gateway_sdk.Sort.{at_most, sort}
use bilbycast_gateway_sdk.Errors.{channel}
use bilbycast_gateway_sdk.Config.{GatewayConfig, minimal, validate, default_backoff}
use bilbycast_gateway_sdk.Config.Validation.{IsValid, validate-IsValid}
use bilbycast_gateway_sdk.WsClient.Reconnect.{
  Turn, run, start, urls_tried, delays, authenticated_then_closed, authenticated_then_lost,
}
use bilbycast_gateway_sdk.WsClient.Reconnect.Rotation.{IsCalm, run-rotates}
use bilbycast_gateway_sdk.WsClient.Reconnect.Backoff.{IsFailing, run-backs_off}
use bilbycast_gateway_sdk.WsClient.Cadence.{
  Heard, ping, frame, heard, secs, silence_floor, silence_limit, dead_for, listen, hear, on_ping,
  on_frame, new, push_gap, ping_gap,
}
use bilbycast_gateway_sdk.WsClient.Cadence.Median.{silence_limit-median}
use bilbycast_gateway_sdk.WsClient.Cadence.Watchdog.{dead_for_spares}

abbrev url_parses : String → Bool
url_parses u = starts_with u "wss://"

abbrev two_managers : GatewayConfig
two_managers = record (minimal "wss://a/ws/node" "appear_x" "1.0") {
  manager_urls = "wss://a/ws/node" ∷ "wss://b/ws/node" ∷ [];
  registration_token = some "token";
}

validate-IsValid_example :
    (validate url_parses two_managers none ≡ ok tt) ↔ IsValid url_parses two_managers none
validate-IsValid_example = validate-IsValid url_parses two_managers none

abbrev lost : Turn
lost = record {
  cancelled_before = false;
  outcome = ok (authenticated_then_lost (channel "gone"));
  cancelled_after = false;
  cancelled_asleep = false;
}

abbrev closed : Turn
closed = record lost { outcome = ok authenticated_then_closed }

lost-IsCalm : IsCalm lost
lost-IsCalm = record { before = refl; after = refl; asleep = refl; outcome = λ e. ground arith }

lost-IsFailing : IsFailing lost
lost-IsFailing = record { calm = lost-IsCalm; unclean = λ e. ground arith }

closed-IsCalm : IsCalm closed
closed-IsCalm = record { before = refl; after = refl; asleep = refl; outcome = λ e. ground arith }

abbrev turns : List Turn
turns = lost ∷ closed ∷ lost ∷ []

run-rotates_example :
    get_elem? (urls_tried (run two_managers start turns)) 2
    ≡ some (get_elem? two_managers.manager_urls (2 % 2))
run-rotates_example =
    run-rotates two_managers turns 2 (lost-IsCalm, (closed-IsCalm, (lost-IsCalm, tt))) (omega arith)
      (omega arith)

run-backs_off_example :
    (d : ℕ) × (get_elem? (delays (run two_managers start (closed ∷ lost ∷ lost ∷ []))) 2
      ≡ some (some d))
    × (get_elem? default_backoff.steps_secs (min 2 (length default_backoff.steps_secs - 1))
        ≡ some d)
unfolding minimal
run-backs_off_example =
    run-backs_off two_managers start closed (lost ∷ lost ∷ []) 2 (omega arith) closed-IsCalm refl
      (lost-IsFailing, (lost-IsFailing, tt)) (omega arith) (omega arith)

-- Pings 30, 62 and 91 seconds into a session.
abbrev pings : List (ℕ × Heard)
pings = (secs 30, ping) ∷ (secs 45, frame) ∷ (secs 62, ping) ∷ (secs 91, ping) ∷ []

silence_limit-median_example :
    (silence_floor ≤ secs 120)
    × (secs 120 ≤ secs 1200)
    × ((secs 120 ≤ secs 30 * 4)
        ↔ (length (heard 0 pings).gaps < 2 * count_if (at_most (secs 30)) (heard 0 pings).gaps))
unfolding silence_limit listen hear on_ping on_frame new push_gap ping_gap sort
silence_limit-median_example = silence_limit-median 0 pings (secs 120) (secs 30) (omega arith) refl

dead_for_spares_example : dead_for (heard 0 pings) (secs 180) ≡ none
dead_for_spares_example = dead_for_spares 0 pings (secs 180) (inr (omega arith))
