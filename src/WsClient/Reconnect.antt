-- ===== src/WsClient/Reconnect.antt =====
-- src/ws_client.rs, `GatewayClient::run`: the loop that connects, waits and connects again. What a
-- turn of the loop meets (the end of its connection, a shutdown request at each place that looks
-- for one) is its input; what it does is the list of its effects.
pub mod Rotation
pub mod Backoff
use bilbycast_gateway_sdk.Base.{
  ℕ, ◌+◌, ◌%◌, min, String, Bool, Option, none, some, List, [], ◌∷◌, ◌++◌, Result, ok, err,
  if◌then◌else◌, length, get_elem?,
}
use bilbycast_gateway_sdk.Errors.{SdkError}
use bilbycast_gateway_sdk.Config.{GatewayConfig, delay_for_attempt}

pub data ConnectionResult : Type 0 where
  authenticated_then_closed : ConnectionResult
  authenticated_then_lost : SdkError → ConnectionResult
  shutdown_requested : ConnectionResult

pub record RunState : Type 0 where
  pub url_cursor : ℕ
  pub attempt : ℕ

abbrev pub start : RunState
start = record { url_cursor = 0; attempt = 0 }

-- What one turn of the loop meets.
pub record Turn : Type 0 where
  pub cancelled_before : Bool
  pub outcome : Result SdkError ConnectionResult
  pub cancelled_after : Bool
  pub cancelled_asleep : Bool

-- `none` for the URL or the delay is the panic of an index out of range.
pub data Effect : Type 0 where
  connecting : Option String → ℕ → Effect
  set_disconnected : Effect
  sleeping : Option ℕ → Effect

abbrev pub usize_mod : ℕ
usize_mod = 18446744073709551616

abbrev pub u32_max : ℕ
u32_max = 4294967295

-- The state after a connection's end; `none` breaks the loop.
pub after_connection : RunState → Result SdkError ConnectionResult → Option RunState
after_connection s (ok authenticated_then_closed) = some (record s { attempt = 0 })
after_connection s (ok (authenticated_then_lost e)) = some s
after_connection s (ok shutdown_requested) = none
after_connection s (err e) = some s

-- The next URL and the next attempt: `wrapping_add` on usize, `saturating_add` on u32.
pub advance : RunState → RunState
advance s = record {
  url_cursor = (s.url_cursor + 1) % usize_mod;
  attempt = min (s.attempt + 1) u32_max;
}

pub current_url : GatewayConfig → RunState → Option String
current_url cfg s = get_elem? cfg.manager_urls (s.url_cursor % length cfg.manager_urls)

-- What a turn does once its connection is over; `go_on` is the rest of the loop.
pub settle : GatewayConfig → Turn → (RunState → List Effect) → Option RunState → List Effect
unfolding advance
settle cfg t go_on none = []
settle cfg t go_on (some s) =
    let next = advance s in
    let rest = go_on next in
    if t.cancelled_after
    then []
    else sleeping (delay_for_attempt cfg.reconnect_backoff next.attempt)
      ∷ (if t.cancelled_asleep then [] else rest)

pub run : GatewayConfig → RunState → List Turn → List Effect
unfolding after_connection settle current_url
run cfg s [] = []
run cfg s (t ∷ ts) =
    let go_on = λ (s' : RunState). run cfg s' ts in
    if t.cancelled_before
    then []
    else connecting (current_url cfg s) s.attempt
      ∷ set_disconnected
      ∷ settle cfg t go_on (after_connection s t.outcome)

-- The URLs that the loop connects to, and the delays that it sleeps, in order.
abbrev pub urls_tried : List Effect → List (Option String)
urls_tried [] = []
urls_tried (connecting url attempt ∷ es) = url ∷ urls_tried es
urls_tried (set_disconnected ∷ es) = urls_tried es
urls_tried (sleeping d ∷ es) = urls_tried es

abbrev pub delays : List Effect → List (Option ℕ)
delays [] = []
delays (connecting url attempt ∷ es) = delays es
delays (set_disconnected ∷ es) = delays es
delays (sleeping d ∷ es) = d ∷ delays es
