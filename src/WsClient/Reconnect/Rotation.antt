-- ===== src/WsClient/Reconnect/Rotation.antt =====
-- src/ws_client.rs, `GatewayClient::run`: failover goes round the configured URLs.
use bilbycast_gateway_sdk.Base.{
  ℕ, zero, suc, ◌+◌, ◌%◌, ◌<◌, ◌≡◌, ◌≢◌, refl, ap, ◌∙◌, false, some, List, [], ◌∷◌, Result, ok, err,
  arith, length, get_elem?, All,
}
use bilbycast_gateway_sdk.Errors.{SdkError}
use bilbycast_gateway_sdk.Config.{GatewayConfig, delay_for_attempt}
use bilbycast_gateway_sdk.WsClient.Reconnect.{
  RunState, Turn, ConnectionResult, connecting, set_disconnected, sleeping, settle, start, run,
  advance, after_connection, current_url, urls_tried, usize_mod, shutdown_requested,
  authenticated_then_closed, authenticated_then_lost,
}

-- A turn in which nobody asks for a shutdown.
pub record IsCalm (t : Turn) : Type 0 where
  pub before : t.cancelled_before ≡ false
  pub after : t.cancelled_after ≡ false
  pub asleep : t.cancelled_asleep ≡ false
  pub outcome : t.outcome ≢ ok shutdown_requested

cursor-advance :
    (s : RunState) → s.url_cursor + 1 < usize_mod → (advance s).url_cursor ≡ s.url_cursor + 1
unfolding advance
cursor-advance s h = omega arith

after_connection-cursor :
    (s : RunState) (r : Result SdkError ConnectionResult)
    → r ≢ ok shutdown_requested
    → (s' : RunState) × (after_connection s r ≡ some s') × (s'.url_cursor ≡ s.url_cursor)
unfolding after_connection
after_connection-cursor s (ok authenticated_then_closed) h = (record s { attempt = 0 }, refl, refl)
after_connection-cursor s (ok (authenticated_then_lost e)) h = (s, refl, refl)
after_connection-cursor s (ok shutdown_requested) h = absurd (h refl)
after_connection-cursor s (err e) h = (s, refl, refl)

-- A calm turn connects, marks the link down, sleeps, and goes on with the next URL.
pub run-calm :
    (cfg : GatewayConfig) (s s' : RunState) (t : Turn) (ts : List Turn)
    → IsCalm t
    → after_connection s t.outcome ≡ some s'
    → run cfg s (t ∷ ts)
      ≡ connecting (current_url cfg s) s.attempt
        ∷ set_disconnected
        ∷ sleeping (delay_for_attempt cfg.reconnect_backoff (advance s').attempt)
        ∷ run cfg (advance s') ts
unfolding run settle
run-calm cfg s s' t ts c e = rw (c.before, e, settle, c.after, c.asleep) refl

urls_tried-run :
    (cfg : GatewayConfig) (s : RunState) (ts : List Turn) (k : ℕ)
    → All IsCalm ts
    → s.url_cursor + length ts < usize_mod
    → k < length ts
    → get_elem? (urls_tried (run cfg s ts)) k
      ≡ some (get_elem? cfg.manager_urls ((s.url_cursor + k) % length cfg.manager_urls))
unfolding current_url
urls_tried-run cfg s [] k c b h = absurd (omega arith)
urls_tried-run cfg s (t ∷ ts) zero c b h =
    let (s', e, _) = after_connection-cursor s t.outcome c.0.outcome in
    rw (run-calm cfg s s' t ts c.0 e)
      (ap (λ n. some (get_elem? cfg.manager_urls (n % length cfg.manager_urls))) (omega arith))
urls_tried-run cfg s (t ∷ ts) (suc k) c b h =
    let (s', e, same) = after_connection-cursor s t.outcome c.0.outcome in
    let at : (advance s').url_cursor ≡ s.url_cursor + 1 =
      omega (arith, cursor-advance s' (omega arith)) in
    rw (run-calm cfg s s' t ts c.0 e) (
      urls_tried-run cfg (advance s') ts k c.1 (omega arith) (omega arith)
      ∙ ap (λ n. some (get_elem? cfg.manager_urls (n % length cfg.manager_urls))) (omega arith))

-- While nobody asks for a shutdown, however the connections end, the k-th connection (from 0) goes
-- to the k-th manager URL, round the list and round again.
pub run-rotates :
    (cfg : GatewayConfig) (ts : List Turn) (k : ℕ)
    → All IsCalm ts
    → length ts < usize_mod
    → k < length ts
    → get_elem? (urls_tried (run cfg start ts)) k
      ≡ some (get_elem? cfg.manager_urls (k % length cfg.manager_urls))
run-rotates cfg ts k c b h =
    urls_tried-run cfg start ts k c (omega arith) h
    ∙ ap (λ n. some (get_elem? cfg.manager_urls (n % length cfg.manager_urls))) (omega arith)
