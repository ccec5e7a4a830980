-- ===== src/WsClient/SessionLoop/Silence.antt =====
-- src/ws_client.rs, `run_session` and `read_manager`: a manager that has pinged and falls silent ends the
-- session.
use bilbycast_gateway_sdk.Base.{
  ℕ, ◌+◌, ◌-◌, ◌<◌, String, ◌≡◌, refl, ap, ◌∙◌, true, false, List, [], ◌∷◌, some,
}
use bilbycast_gateway_sdk.Json.{Json}
use bilbycast_gateway_sdk.WsClient.Cadence.{dead_for, secs}
use bilbycast_gateway_sdk.WsClient.Cadence.Watchdog.{pinged, last_heard, dead_for_fires}
use bilbycast_gateway_sdk.WsClient.Reconnect.{authenticated_then_lost}
use bilbycast_gateway_sdk.WsClient.SessionLoop.{
  reading, Link, Event, checks, ends, finish, check_silence, by_event, step, run_session, is_over,
  opened, silence_error,
}
use bilbycast_gateway_sdk.WsClient.SessionLoop.Hearing.{heard_in, run_session-cadence}

module _ (j : Json) (digits : ℕ → String) (version : String) where
  checked :
      (s : Link) (now silent limit : ℕ)
      → is_over s.loop ≡ false
      → s.reader ≡ reading
      → dead_for s.cadence now ≡ some (silent, limit)
      → let lost = authenticated_then_lost (silence_error digits silent limit) in
        (step j digits version s (checks now)).1 ≡ ends lost ∷ []
  unfolding step by_event check_silence finish
  checked s now silent limit up reads' dead = rw (up, reads', dead, check_silence, finish) refl

  checked_over :
      (s : Link) (now silent limit : ℕ)
      → is_over s.loop ≡ false
      → s.reader ≡ reading
      → dead_for s.cadence now ≡ some (silent, limit)
      → is_over (step j digits version s (checks now)).0.loop ≡ true
  unfolding step by_event check_silence finish
  checked_over s now silent limit up reads' dead = rw (up, reads', dead, check_silence, finish) refl

  -- The session ends as lost, after a silence that is longer than its limit.
  pub record IsLost (s : Link) (now silent : ℕ) : Type 0 where
    pub limit : ℕ
    pub past : limit < silent
    pub lost :
        (step j digits version s (checks now)).1
        ≡ ends (authenticated_then_lost (silence_error digits silent limit)) ∷ []
    pub over : is_over (step j digits version s (checks now)).0.loop ≡ true

  -- Whatever a session has met, while it is not over, its reader is at its wait for a frame, the manager
  -- has pinged, and more than 20 minutes have passed since the session last heard of it (the last frame
  -- read, or the hand-over of a text to the loop, from where the reader times the silence again): the
  -- reader's next check ends the session as lost, with that silence and the limit that it passed.
  pub run_session-silence :
      (start : ℕ) (es : List Event) (now : ℕ)
      → is_over (run_session j digits version (opened start) es).0.loop ≡ false
      → (run_session j digits version (opened start) es).0.reader ≡ reading
      → pinged (heard_in j digits version (opened start) es) ≡ true
      → last_heard start (heard_in j digits version (opened start) es) + secs 1200 < now
      → IsLost
          (run_session j digits version (opened start) es).0
          now
          (now - last_heard start (heard_in j digits version (opened start) es))
  unfolding opened
  run_session-silence start es now up reads' h late =
      let s = (run_session j digits version (opened start) es).0 in
      let hs = heard_in j digits version (opened start) es in
      let (limit, dead, past) = dead_for_fires start hs now h late in
      let dead' : dead_for s.cadence now ≡ some (now - last_heard start hs, limit) =
        ap (λ c. dead_for c now) (run_session-cadence j digits version (opened start) es) ∙ dead in
      record {
        limit = limit;
        past = past;
        lost = checked s now (now - last_heard start hs) limit up reads' dead';
        over = checked_over s now (now - last_heard start hs) limit up reads' dead';
      }
