-- ===== src/WsClient/Reconnect/Backoff.antt =====
-- src/ws_client.rs, `GatewayClient::run`, with src/config.rs, `ReconnectBackoff`: how long it waits.
use bilbycast_gateway_sdk.Base.{
  ℕ, zero, suc, ◌+◌, ◌-◌, ◌<◌, ◌≤◌, ◌≡◌, ◌≢◌, refl, ap, ◌∙◌, some, min, List, [], ◌∷◌, ok, err,
  Result, arith, length, get_elem?, All, get_elem?-of_lt, Bool-cases, ◌==◌, inl, inr,
}
use bilbycast_gateway_sdk.Errors.{SdkError}
use bilbycast_gateway_sdk.Config.{GatewayConfig, ReconnectBackoff, delay_for_attempt}
use bilbycast_gateway_sdk.WsClient.Reconnect.{
  RunState, Turn, ConnectionResult, run, advance, after_connection, delays, u32_max,
  shutdown_requested, authenticated_then_closed, authenticated_then_lost,
}
use bilbycast_gateway_sdk.WsClient.Reconnect.Rotation.{IsCalm, run-calm}

-- A calm turn whose connection did not end with a clean close.
pub record IsFailing (t : Turn) : Type 0 where
  pub calm : IsCalm t
  pub unclean : t.outcome ≢ ok authenticated_then_closed

after_connection-failing :
    (s : RunState) (r : Result SdkError ConnectionResult)
    → r ≢ ok shutdown_requested
    → r ≢ ok authenticated_then_closed
    → after_connection s r ≡ some s
unfolding after_connection
after_connection-failing s (ok authenticated_then_closed) h h' = absurd (h' refl)
after_connection-failing s (ok (authenticated_then_lost e)) h h' = refl
after_connection-failing s (ok shutdown_requested) h h' = absurd (h refl)
after_connection-failing s (err e) h h' = refl

attempt-advance : (s : RunState) → s.attempt + 1 ≤ u32_max → (advance s).attempt ≡ s.attempt + 1
unfolding advance
attempt-advance s h = omega arith

module _ (cfg : GatewayConfig) where
  delays-run :
      (s : RunState) (ts : List Turn) (k : ℕ)
      → All IsFailing ts
      → s.attempt + length ts ≤ u32_max
      → k < length ts
      → get_elem? (delays (run cfg s ts)) k
        ≡ some (delay_for_attempt cfg.reconnect_backoff (s.attempt + k + 1))
  delays-run s [] k f b h = absurd (omega arith)
  delays-run s (t ∷ ts) zero f b h =
      rw
        (run-calm cfg s s t ts f.0.calm
          (after_connection-failing s t.outcome f.0.calm.outcome f.0.unclean))
        (ap (λ n. some (delay_for_attempt cfg.reconnect_backoff n))
          (omega (arith, attempt-advance s (omega arith))))
  delays-run s (t ∷ ts) (suc k) f b h =
      let at : (advance s).attempt ≡ s.attempt + 1 = attempt-advance s (omega arith) in
      rw
        (run-calm cfg s s t ts f.0.calm
          (after_connection-failing s t.outcome f.0.calm.outcome f.0.unclean))
        (delays-run (advance s) ts k f.1 (omega arith) (omega arith)
          ∙ ap (λ n. some (delay_for_attempt cfg.reconnect_backoff n)) (omega arith))

  delays-run_closed :
      (s : RunState) (t : Turn) (ts : List Turn) (k : ℕ)
      → IsCalm t
      → t.outcome ≡ ok authenticated_then_closed
      → All IsFailing ts
      → length ts < u32_max
      → k ≤ length ts
      → get_elem? (delays (run cfg s (t ∷ ts))) k
        ≡ some (delay_for_attempt cfg.reconnect_backoff (k + 1))
  unfolding after_connection
  delays-run_closed s t ts zero c closed f b h =
      let s' = record s { attempt = 0 } in
      rw (run-calm cfg s s' t ts c (rw (closed, after_connection) refl)) (
        ap (λ n. some (delay_for_attempt cfg.reconnect_backoff n))
          (omega (arith, attempt-advance s' (omega arith))))
  delays-run_closed s t ts (suc k) c closed f b h =
      let s' = record s { attempt = 0 } in
      let at : (advance s').attempt ≡ 1 = attempt-advance s' (omega arith) in
      rw (run-calm cfg s s' t ts c (rw (closed, after_connection) refl)) (
        delays-run (advance s') ts k f (omega arith) (omega arith)
        ∙ ap (λ n. some (delay_for_attempt cfg.reconnect_backoff n)) (omega arith))

-- The delay before the n-th retry is the n-th step of the policy, or its last step from there on.
delay_for_attempt-step :
    (b : ReconnectBackoff) (k : ℕ)
    → 0 < length b.steps_secs
    → delay_for_attempt b (k + 1) ≡ get_elem? b.steps_secs (min k (length b.steps_secs - 1))
unfolding delay_for_attempt
delay_for_attempt-step b k h = elim (Bool-cases (length b.steps_secs == 0)) [
  | inl e ↦ absurd (ground (arith, e))
  | inr e ↦ rw e (ap (get_elem? b.steps_secs) (omega arith))
]

-- A clean close resets the backoff: the delay after it is the policy's first step, and each
-- connection that then fails or is lost waits for the next step, the last step repeating. The delay
-- is always one of the configured steps.
pub run-backs_off :
    (cfg : GatewayConfig) (s : RunState) (t : Turn) (ts : List Turn) (k : ℕ)
    → 0 < length cfg.reconnect_backoff.steps_secs
    → IsCalm t
    → t.outcome ≡ ok authenticated_then_closed
    → All IsFailing ts
    → length ts < u32_max
    → k ≤ length ts
    → (d : ℕ) × (get_elem? (delays (run cfg s (t ∷ ts))) k ≡ some (some d))
      × (get_elem? cfg.reconnect_backoff.steps_secs
            (min k (length cfg.reconnect_backoff.steps_secs - 1))
          ≡ some d)
run-backs_off cfg s t ts k steps c closed f b h =
    let b' = cfg.reconnect_backoff in
    let (d, e) = get_elem?-of_lt b'.steps_secs (min k (length b'.steps_secs - 1)) (omega arith) in
    (
      d,
      delays-run_closed cfg s t ts k c closed f b h
          ∙ ap some (delay_for_attempt-step b' k steps ∙ e),
      e,
    )
