-- ===== src/WsClient/Cadence/Watchdog.antt =====
-- src/ws_client.rs, `InboundCadence::dead_for`: when a session is taken for dead.
use bilbycast_gateway_sdk.Base.{
  ℕ, ◌+◌, ◌-◌, ◌*◌, ◌≤◌, ◌<◌, max, ◌≡◌, refl, inl, inr, none, some, List, [], ◌∷◌, arith, is_some,
  true, false, Bool, ltb, if◌then◌else◌, ◌∙◌, ◌⊎◌,
}
use bilbycast_gateway_sdk.WsClient.Cadence.{
  InboundCadence, new, on_frame, on_ping, hear, listen, heard, Heard, ping, frame, silence_limit,
  dead_for, secs, silence_floor,
}
use bilbycast_gateway_sdk.WsClient.Cadence.Median.{
  listen-new-IsWellFormed, limit_of_median, no_gaps, limit_cases,
}

abbrev pub pinged : List (ℕ × Heard) → Bool
pinged [] = false
pinged ((now, ping) ∷ hs) = true
pinged ((now, frame) ∷ hs) = pinged hs

-- When the session was last heard from: the time of its last frame, or of its start.
abbrev pub last_heard : ℕ → List (ℕ × Heard) → ℕ
last_heard start [] = start
last_heard start ((now, h) ∷ hs) = last_heard now hs

last_frame-listen :
    (c : InboundCadence) (hs : List (ℕ × Heard))
    → (listen c hs).last_frame ≡ last_heard c.last_frame hs
unfolding listen hear on_ping on_frame
last_frame-listen c [] = refl
last_frame-listen c ((now, ping) ∷ hs) = last_frame-listen (on_ping c now) hs
last_frame-listen c ((now, frame) ∷ hs) = last_frame-listen (on_frame c now) hs

last_ping-listen_some :
    (c : InboundCadence) (hs : List (ℕ × Heard))
    → is_some c.last_ping ≡ true
    → is_some (listen c hs).last_ping ≡ true
unfolding listen hear on_ping on_frame
last_ping-listen_some c [] h = h
last_ping-listen_some c ((now, ping) ∷ hs) h = last_ping-listen_some (on_ping c now) hs refl
last_ping-listen_some c ((now, frame) ∷ hs) h = last_ping-listen_some (on_frame c now) hs h

last_ping-listen :
    (c : InboundCadence) (hs : List (ℕ × Heard))
    → is_some c.last_ping ≡ false
    → is_some (listen c hs).last_ping ≡ pinged hs
unfolding listen hear on_ping on_frame
last_ping-listen c [] h = h
last_ping-listen c ((now, ping) ∷ hs) h = last_ping-listen_some (on_ping c now) hs refl
last_ping-listen c ((now, frame) ∷ hs) h = last_ping-listen (on_frame c now) hs h

last_frame-heard :
    (start : ℕ) (hs : List (ℕ × Heard)) → (heard start hs).last_frame ≡ last_heard start hs
unfolding new
last_frame-heard start hs = last_frame-listen (new start) hs

last_ping-heard :
    (start : ℕ) (hs : List (ℕ × Heard)) → is_some (heard start hs).last_ping ≡ pinged hs
unfolding new
last_ping-heard start hs = last_ping-listen (new start) hs refl

dead_for_by_limit :
    (c : InboundCadence) (limit now : ℕ)
    → silence_limit c ≡ some limit
    → dead_for c now
      ≡ (if ltb limit (now - c.last_frame) then some (now - c.last_frame, limit) else none)
unfolding dead_for
dead_for_by_limit c limit now e = rw (e, dead_for)

dead_for_without : (c : InboundCadence) (now : ℕ) → silence_limit c ≡ none → dead_for c now ≡ none
unfolding dead_for
dead_for_without c now e = rw (e, dead_for)

-- A session is never taken for dead before the manager's first ping, however long the silence, nor
-- within 90 s of its last frame (or of its start, if there was none).
pub dead_for_spares :
    (start : ℕ) (hs : List (ℕ × Heard)) (now : ℕ)
    → (pinged hs ≡ false) ⊎ (now ≤ last_heard start hs + silence_floor)
    → dead_for (heard start hs) now ≡ none
dead_for_spares start hs now (inl h) = dead_for_without (heard start hs) now (
    no_gaps (heard start hs)
      ((listen-new-IsWellFormed start hs).unarmed (last_ping-heard start hs ∙ h)))
dead_for_spares start hs now (inr h) = elim (limit_cases (heard start hs)) [
  | inl e ↦ dead_for_without (heard start hs) now e
  | inr some_gap ↦
      let c = heard start hs in
      let (m, _, low, e) = limit_of_median c (listen-new-IsWellFormed start hs) some_gap in
      let quiet : now - c.last_frame ≤ silence_floor = omega (arith, last_frame-heard start hs) in
      dead_for_by_limit c _ now e ∙ ground arith
]

-- Once the manager has pinged, a silence of more than 20 minutes is always past the limit: asked then,
-- `dead_for` reports how long it has lasted and the limit that it passed.
pub dead_for_fires :
    (start : ℕ) (hs : List (ℕ × Heard)) (now : ℕ)
    → pinged hs ≡ true
    → last_heard start hs + secs 1200 < now
    → (limit : ℕ) × (dead_for (heard start hs) now ≡ some (now - last_heard start hs, limit))
      × (limit < now - last_heard start hs)
dead_for_fires start hs now h late =
    let c = heard start hs in
    let w = listen-new-IsWellFormed start hs in
    let (m, _, low, e) = limit_of_median c w (w.armed (last_ping-heard start hs ∙ h)) in
    let at = last_frame-heard start hs in
    let past : max silence_floor (m * 4) < now - last_heard start hs = omega arith in
    (max silence_floor (m * 4), rw (← at) (dead_for_by_limit c _ now e ∙ ground (arith, at)), past)
