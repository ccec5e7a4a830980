-- ===== src/WsClient/Cadence.antt =====
-- src/ws_client.rs, `InboundCadence`: what a session has heard from the manager, how often the
-- manager pings, and the silence that ends the session. Times are nanoseconds of a monotone clock,
-- so that `saturating_duration_since` is the truncated subtraction of ℕ.
pub mod Median
pub mod Watchdog
use bilbycast_gateway_sdk.Base.{
  ℕ, ◌+◌, ◌-◌, ◌*◌, ◌/◌, min, max, ◌≡◌, Bool, Option, none, some, List, [], ◌∷◌, ◌++◌, ltb, ◌==◌,
  if◌then◌else◌, length, get_elem?, drop,
}
use bilbycast_gateway_sdk.Sort.{sort}

abbrev pub secs : ℕ → ℕ
secs n = n * 1000000000

abbrev pub silence_floor : ℕ
silence_floor = secs 90

abbrev pub silence_pings : ℕ
silence_pings = 4

abbrev pub ping_gaps_kept : ℕ
ping_gaps_kept = 8

abbrev pub max_ping_gap : ℕ
max_ping_gap = secs 300

-- The longest `Duration`, at which `saturating_mul` stops.
abbrev pub duration_max : ℕ
duration_max = 18446744073709551615999999999

pub record InboundCadence : Type 0 where
  pub started : ℕ
  pub last_frame : ℕ
  pub last_ping : Option ℕ
  pub gaps : List ℕ

unfoldable pub new : ℕ → InboundCadence
new now = record { started = now; last_frame = now; last_ping = none; gaps = [] }

unfoldable pub on_frame : InboundCadence → ℕ → InboundCadence
on_frame c now = record c { last_frame = now }

abbrev pub unwrap_or : Option ℕ → ℕ → ℕ
unwrap_or none d = d
unwrap_or (some a) d = a

-- At `PING_GAPS_KEPT` gaps the oldest makes room.
unfoldable pub push_gap : List ℕ → ℕ → List ℕ
push_gap gaps gap = (if length gaps == ping_gaps_kept then drop 1 gaps else gaps) ++ gap ∷ []

-- The gap that a ping at `now` ends: from the ping before it, or from the start of the session.
unfoldable pub ping_gap : InboundCadence → ℕ → ℕ
ping_gap c now = min (now - unwrap_or c.last_ping c.started) max_ping_gap

unfoldable pub on_ping : InboundCadence → ℕ → InboundCadence
unfolding on_frame push_gap ping_gap
on_ping c now =
    let c' = on_frame c now in
    record c' { gaps = push_gap c'.gaps (ping_gap c' now); last_ping = some now }

unfoldable pub silence_limit : InboundCadence → Option ℕ
silence_limit c = elim (get_elem? (sort c.gaps) (length (sort c.gaps) / 2)) [
  | none ↦ none
  | some median ↦ some (max silence_floor (min (median * silence_pings) duration_max))
]

pub dead_for : InboundCadence → ℕ → Option (ℕ × ℕ)
dead_for c now = elim (silence_limit c) [
  | none ↦ none
  | some limit ↦
      let silent = now - c.last_frame in if ltb limit silent then some (silent, limit) else none
]

-- What the reader tells the cadence of each frame it reads.
pub data Heard : Type 0 where
  ping frame : Heard

unfoldable pub hear : InboundCadence → ℕ × Heard → InboundCadence
hear c (now, ping) = on_ping c now
hear c (now, frame) = on_frame c now

unfoldable pub listen : InboundCadence → List (ℕ × Heard) → InboundCadence
listen c [] = c
listen c (h ∷ hs) = listen (hear c h) hs

-- The cadence of a session that began at `start` and has heard `hs`.
abbrev pub heard : ℕ → List (ℕ × Heard) → InboundCadence
heard start hs = listen (new start) hs
