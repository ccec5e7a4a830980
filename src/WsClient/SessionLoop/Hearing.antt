-- ===== src/WsClient/SessionLoop/Hearing.antt =====
-- src/ws_client.rs, `run_session` and `read_manager`: what a session hears of the manager, and that this is
-- all that its cadence knows.
use bilbycast_gateway_sdk.Base.{
  ℕ, String, ◌≡◌, refl, sym, ap, ◌∙◌, List, [], ◌∷◌, ◌++◌, inl, inr, Bool-cases, Option-cases,
  Result-cases, ltb, leb, len, if◌then◌else◌, length,
}
use bilbycast_gateway_sdk.Json.{Json}
use bilbycast_gateway_sdk.WsClient.Cadence as Cadence
use bilbycast_gateway_sdk.WsClient.Cadence.{
  InboundCadence, Heard, hear, listen, heard, dead_for, secs, on_ping, on_frame,
}
use bilbycast_gateway_sdk.WsClient.Inbound.{
  Routed, reply, failed as route_failed, route_inbound, u32_cost,
}
use bilbycast_gateway_sdk.WsClient.Reconnect.{
  ConnectionResult, shutdown_requested, authenticated_then_lost,
}
use bilbycast_gateway_sdk.WsClient.SessionLoop.{
  Incoming, ping_frame, text_frame, close_frame, read_error, stream_end, Inbound, text, ping,
  closed, failed, ended, ReaderPhase, reading, acquiring, sending, LoopPhase, selecting, writing,
  over, Link, Event, reads, acquires, hands_over, checks, receives, forwards, beats, write_ends,
  worker_takes, shuts_down, Written, finish, take_in, reads_frame, acquire, after_handover,
  hand_over, check_silence, after_route, handle, receive, forward, beat, write_end, send_bounded,
  by_selecting, by_writing, by_loop, by_event, step, run_session, is_over, inbound_channel_size,
  silence_error,
}

-- What a frame is to the silence, when it is read: errors and the end of the stream are none.
abbrev pub heard_frame : ℕ → Incoming → List (ℕ × Heard)
heard_frame now (ping_frame data') = (now, Cadence.ping) ∷ []
heard_frame now (read_error e) = []
heard_frame now stream_end = []
heard_frame now _ = (now, Cadence.frame) ∷ []

abbrev pub heard_reading : ℕ → Incoming → ReaderPhase → List (ℕ × Heard)
heard_reading now f reading = heard_frame now f
heard_reading now f _ = []

-- A text that is handed over, at last: the silence is timed from there.
abbrev pub heard_handing : Link → ℕ → ReaderPhase → List (ℕ × Heard)
heard_handing s now (sending (text t held)) =
    if ltb (length s.channel) inbound_channel_size then (now, Cadence.frame) ∷ [] else []
heard_handing s now _ = []

abbrev pub heard_at : Link → Event → List (ℕ × Heard)
heard_at s (reads now f) = heard_reading now f s.reader
heard_at s (hands_over now) = heard_handing s now s.reader
heard_at s _ = []

listen-append :
    (c : InboundCadence) (a b : List (ℕ × Heard)) → listen c (a ++ b) ≡ listen (listen c a) b
unfolding listen
listen-append c [] b = refl
listen-append c (h ∷ a) b = listen-append (hear c h) a b

finish-cadence : (s : Link) (r : ConnectionResult) → (finish s r).0.cadence ≡ s.cadence
unfolding finish
finish-cadence s shutdown_requested = refl
finish-cadence s _ = refl

reads_frame-cadence :
    (s : Link) (now : ℕ) (f : Incoming) (p : ReaderPhase)
    → (reads_frame s now f p).0.cadence ≡ listen s.cadence (heard_reading now f p)
unfolding reads_frame take_in listen hear
reads_frame-cadence s now (ping_frame b) reading = refl
reads_frame-cadence s now (text_frame t) reading = refl
reads_frame-cadence s now (close_frame t) reading = refl
reads_frame-cadence s now (read_error t) reading = refl
reads_frame-cadence s now stream_end reading = refl
reads_frame-cadence s now _ reading = refl
reads_frame-cadence s now f _ = refl

acquire-cadence : (s : Link) (p : ReaderPhase) → (acquire s p).cadence ≡ s.cadence
unfolding acquire
acquire-cadence s (acquiring t) = elim (Bool-cases (leb (u32_cost (len t)) s.budget)) [
  | inl e ↦ rw (e, acquire) refl
  | inr e ↦ rw (e, acquire) refl
]
acquire-cadence s _ = refl

hand_over-cadence :
    (s : Link) (now : ℕ) (p : ReaderPhase)
    → (hand_over s now p).cadence ≡ listen s.cadence (heard_handing s now p)
unfolding hand_over after_handover listen hear
hand_over-cadence s now (sending (text t held)) =
    elim (Bool-cases (ltb (length s.channel) inbound_channel_size)) [
      | inl e ↦ rw (e, hand_over) refl
      | inr e ↦ rw (e, hand_over) refl
    ]
hand_over-cadence s now (sending i) =
    elim (Bool-cases (ltb (length s.channel) inbound_channel_size)) [
      | inl e ↦ rw (e, hand_over) refl
      | inr e ↦ rw (e, hand_over) refl
    ]
hand_over-cadence s now _ = refl

forward-cadence :
    (s : Link) (frame : String) (c : List Inbound) → (forward s frame c).0.cadence ≡ s.cadence
unfolding forward
forward-cadence s frame [] = refl
forward-cadence s frame (i ∷ c) = refl

module _ (j : Json) where
  after_route-cadence :
      (s : Link) (t : String) (held : ℕ) (r : Routed)
      → (after_route j s t held r).0.cadence ≡ s.cadence
  unfolding after_route
  after_route-cadence s t held (reply frame) = refl
  after_route-cadence s t held (route_failed e) = finish-cadence s (authenticated_then_lost e)
  after_route-cadence s t held _ = refl

  handle-cadence :
      (s : Link) (stamp : String) (i : Inbound) → (handle j s stamp i).0.cadence ≡ s.cadence
  unfolding handle
  handle-cadence s stamp (text t held) =
      let (commands, routed) = route_inbound j stamp s.commands t in
      after_route-cadence (record s { commands = commands }) t held routed
  handle-cadence s stamp (ping b) = refl
  handle-cadence s stamp (closed f) = finish-cadence s _
  handle-cadence s stamp (failed e) = finish-cadence s _
  handle-cadence s stamp ended = finish-cadence s _

  receive-cadence :
      (s : Link) (stamp : String) (c : List Inbound) → (receive j s stamp c).0.cadence ≡ s.cadence
  unfolding receive
  receive-cadence s stamp [] = refl
  receive-cadence s stamp (i ∷ c) = handle-cadence (record s { channel = c }) stamp i

  beat-cadence :
      (s : Link) (stamp version : String) (c : List Inbound)
      → (beat j s stamp version c).0.cadence ≡ s.cadence
  unfolding beat
  beat-cadence s stamp version [] = refl
  beat-cadence s stamp version (i ∷ c) = refl

  write_end-cadence :
      (s : Link) (what : String) (held : ℕ) (w : Written)
      → (write_end j s what held w).0.cadence ≡ s.cadence
  unfolding write_end
  write_end-cadence s what held w = elim (Result-cases (send_bounded what w)) [
    | inl (u, e) ↦ rw (e, write_end) refl
    | inr (x, e) ↦ rw (e, write_end) (finish-cadence s (authenticated_then_lost x))
  ]

  by_loop-cadence :
      (s : Link) (version : String) (e : Event) (p : LoopPhase)
      → (by_loop j s version e p).0.cadence ≡ s.cadence
  unfolding by_loop by_selecting by_writing
  by_loop-cadence s version (receives stamp) selecting = receive-cadence s stamp s.channel
  by_loop-cadence s version (forwards frame) selecting = forward-cadence s frame s.channel
  by_loop-cadence s version (beats stamp) selecting = beat-cadence s stamp version s.channel
  by_loop-cadence s version _ selecting = refl
  by_loop-cadence s version (write_ends w) (writing what held) = write_end-cadence s what held w
  by_loop-cadence s version _ (writing what held) = refl
  by_loop-cadence s version e (over r) = refl

module _ (j : Json) (digits : ℕ → String) (version : String) where
  check_silence-cadence :
      (s : Link) (now : ℕ) (p : ReaderPhase) → (check_silence digits s now p).0.cadence ≡ s.cadence
  unfolding check_silence
  check_silence-cadence s now reading = elim (Option-cases (dead_for s.cadence now)) [
    | inl e ↦ rw (e, check_silence) refl
    | inr ((silent, limit), e) ↦
        rw (e, check_silence)
          (finish-cadence s (authenticated_then_lost (silence_error digits silent limit)))
  ]
  check_silence-cadence s now _ = refl

  by_event-cadence :
      (s : Link) (e : Event)
      → (by_event j digits version s e).0.cadence ≡ listen s.cadence (heard_at s e)
  unfolding by_event listen
  by_event-cadence s (reads now f) = reads_frame-cadence s now f s.reader
  by_event-cadence s acquires = acquire-cadence s s.reader
  by_event-cadence s (hands_over now) = hand_over-cadence s now s.reader
  by_event-cadence s (checks now) = check_silence-cadence s now s.reader
  by_event-cadence s worker_takes = refl
  by_event-cadence s shuts_down = finish-cadence s shutdown_requested
  by_event-cadence s (receives stamp) = by_loop-cadence j s version (receives stamp) s.loop
  by_event-cadence s (forwards frame) = by_loop-cadence j s version (forwards frame) s.loop
  by_event-cadence s (beats stamp) = by_loop-cadence j s version (beats stamp) s.loop
  by_event-cadence s (write_ends w) = by_loop-cadence j s version (write_ends w) s.loop

  -- What a session hears from here on, with the times, up to its end: the frames that its reader reads,
  -- and the hand-overs of its texts.
  abbrev pub heard_in : Link → List Event → List (ℕ × Heard)
  heard_in s [] = []
  heard_in s (e ∷ es) =
      (if is_over s.loop then [] else heard_at s e) ++ heard_in (step j digits version s e).0 es

  step-cadence :
      (s : Link) (e : Event)
      → (step j digits version s e).0.cadence
        ≡ listen s.cadence (if is_over s.loop then [] else heard_at s e)
  unfolding step listen
  step-cadence s e = elim (Bool-cases (is_over s.loop)) [
    | inl h ↦ rw (h, step) refl
    | inr h ↦ rw (h, step) (by_event-cadence s e)
  ]

  pub run_session-cadence :
      (s : Link) (es : List Event)
      → (run_session j digits version s es).0.cadence ≡ listen s.cadence (heard_in s es)
  unfolding run_session listen
  run_session-cadence s [] = refl
  run_session-cadence s (e ∷ es) =
      run_session-cadence (step j digits version s e).0 es
      ∙ ap (λ c. listen c (heard_in (step j digits version s e).0 es)) (step-cadence s e)
      ∙ sym (
          listen-append s.cadence (if is_over s.loop then [] else heard_at s e)
            (heard_in (step j digits version s e).0 es))
