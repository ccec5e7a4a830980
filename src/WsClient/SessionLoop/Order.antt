-- ===== src/WsClient/SessionLoop/Order.antt =====
-- src/ws_client.rs, `run_session`: the order in which what the manager sends reaches the session loop.
use mathlib.Core.List.{append-nil, append_assoc}
use bilbycast_gateway_sdk.Base.{
  ℕ, String, ◌≡◌, refl, ap, ◌∙◌, subst, map, subst, map, inl, inr, List, [], ◌∷◌, ◌++◌, ltb, leb,
  Bool-cases, Option-cases, Result-cases, length, len,
}
use bilbycast_gateway_sdk.Json.{Json}
use bilbycast_gateway_sdk.WsClient.Cadence.{dead_for}
use bilbycast_gateway_sdk.WsClient.Inbound.{
  Routed, reply, failed as route_failed, u32_cost, route_inbound,
}
use bilbycast_gateway_sdk.WsClient.Reconnect.{
  ConnectionResult, authenticated_then_closed, authenticated_then_lost, shutdown_requested,
}
use bilbycast_gateway_sdk.WsClient.SessionLoop.{
  Bytes, Incoming, ping_frame, text_frame, close_frame, read_error, stream_end, Inbound, text, ping,
  closed, failed, ended, ReaderPhase, reading, acquiring, sending, LoopPhase, selecting, writing,
  over, Link, Outcome, opened, Event, reads, acquires, hands_over, checks, receives, forwards,
  beats, write_ends, worker_takes, shuts_down, finish, offer_ping, take_in, Written, reads_frame,
  after_handover, acquire, hand_over, check_silence, after_route, handle, receive, forward, beat,
  write_end, send_bounded, by_selecting, by_writing, by_loop, by_event, is_over, step, run_session,
  inbound_channel_size,
}
use bilbycast_gateway_sdk.WsClient.SessionLoop.Trace.{
  due, told_of, waits, in_hand, pending, waits-append, put, Queued, done, queue_ops,
  queue_ops-append, Queued-trans, Queued-puts, Queued-gets, Queued-order, all_put, all_got,
}

-- An outcome is what the operations of a queue make of what waits.
record InOrder (s : Link) (o : Outcome) : Type 0 where
  order : Queued (pending s) (queue_ops o.1) (pending o.0)

InOrder-quiet : (s s' : Link) → pending s ≡ pending s' → InOrder s (s', [])
InOrder-quiet s s' e = record { order = subst (Queued (pending s) []) e done }

finish-InOrder : (s : Link) (r : ConnectionResult) → InOrder s (finish s r)
unfolding finish
finish-InOrder s shutdown_requested = record { order = done }
finish-InOrder s authenticated_then_closed = record { order = done }
finish-InOrder s (authenticated_then_lost e) = record { order = done }

waits-offer_ping : (c : List Inbound) (b : Bytes) → waits (offer_ping c b) ≡ waits c
unfolding offer_ping
waits-offer_ping c b = elim (Bool-cases (ltb (length c) inbound_channel_size)) [
  | inl e ↦ rw (e, offer_ping) (waits-append c (ping b ∷ []) ∙ append-nil (waits c))
  | inr e ↦ rw (e, offer_ping) refl
]

take_in-due :
    (s : Link) (now : ℕ) (f : Incoming)
    → s.reader ≡ reading
    → pending (take_in s now f) ≡ waits s.channel ++ due f
unfolding take_in
take_in-due s now (ping_frame b) e = rw (e, waits-offer_ping s.channel b) refl
take_in-due s now (text_frame t) e = refl
take_in-due s now (close_frame f) e = refl
take_in-due s now (read_error x) e = refl
take_in-due s now stream_end e = refl
take_in-due s now _ e = rw e refl

reads_frame-InOrder :
    (s : Link) (now : ℕ) (f : Incoming) (p : ReaderPhase)
    → s.reader ≡ p
    → InOrder s (reads_frame s now f p)
unfolding reads_frame
reads_frame-InOrder s now f reading e =
    let before : pending s ≡ waits s.channel =
      ap (λ r. waits s.channel ++ in_hand r) e ∙ append-nil (waits s.channel) in
    let putting = Queued-puts (waits s.channel) (due f) in
    record { order = rw (before, append-nil (map put (due f)), take_in-due s now f e) putting }
reads_frame-InOrder s now f _ e = InOrder-quiet s s refl

acquire-pending : (s : Link) (p : ReaderPhase) → s.reader ≡ p → pending s ≡ pending (acquire s p)
unfolding acquire
acquire-pending s (acquiring t) e = elim (Bool-cases (leb (u32_cost (len t)) s.budget)) [
  | inl h ↦ rw (h, e, acquire) refl
  | inr h ↦ rw (h, acquire) refl
]
acquire-pending s _ e = refl

after_handover-pending :
    (s : Link) (now : ℕ) (i : Inbound) → pending (after_handover s now i) ≡ waits s.channel
unfolding after_handover
after_handover-pending s now (text t held) = append-nil (waits s.channel)
after_handover-pending s now _ = append-nil (waits s.channel)

hand_over-pending :
    (s : Link) (now : ℕ) (p : ReaderPhase) → s.reader ≡ p → pending s ≡ pending (hand_over s now p)
unfolding hand_over
hand_over-pending s now (sending i) e =
    let s' = record s { channel = s.channel ++ i ∷ [] } in
    elim (Bool-cases (ltb (length s.channel) inbound_channel_size)) [
      | inl h ↦
          rw
            (
              h,
              hand_over,
              after_handover-pending s' now i,
              waits-append s.channel (i ∷ []),
              e,
              append-nil (told_of i),
            )
            refl
      | inr h ↦ rw (h, hand_over) refl
    ]
hand_over-pending s now _ e = refl

check_silence-InOrder :
    (digits : ℕ → String) (s : Link) (now : ℕ) (p : ReaderPhase)
    → InOrder s (check_silence digits s now p)
unfolding check_silence
check_silence-InOrder digits s now reading = elim (Option-cases (dead_for s.cadence now)) [
  | inl e ↦ rw (e, check_silence) (InOrder-quiet s s refl)
  | inr h ↦ rw (h.1, check_silence) (finish-InOrder s _)
]
check_silence-InOrder digits s now _ = InOrder-quiet s s refl

module _ (j : Json) where
  -- What the loop does with a message it has taken leaves the rest as it is.
  after_route-InOrder :
      (s : Link) (t : String) (held : ℕ) (r : Routed) → InOrder s (after_route j s t held r)
  unfolding after_route
  after_route-InOrder s t held (reply x) = record { order = done }
  after_route-InOrder s t held (route_failed x) = finish-InOrder s _
  after_route-InOrder s t held _ = InOrder-quiet s _ refl

  handle-InOrder : (s : Link) (stamp : String) (i : Inbound) → InOrder s (handle j s stamp i)
  unfolding handle
  handle-InOrder s stamp (text t held) =
      let r = route_inbound j stamp s.commands t in
      record { order = (after_route-InOrder (record s { commands = r.0 }) t held r.1).order }
  handle-InOrder s stamp (ping b) = record { order = done }
  handle-InOrder s stamp (closed f) = finish-InOrder s _
  handle-InOrder s stamp (failed x) = finish-InOrder s _
  handle-InOrder s stamp ended = finish-InOrder s _

  receive-InOrder :
      (s : Link) (stamp : String) (c : List Inbound)
      → s.channel ≡ c
      → InOrder s (receive j s stamp c)
  unfolding receive
  receive-InOrder s stamp [] e = InOrder-quiet s s refl
  receive-InOrder s stamp (i ∷ rest) e =
      let s1 = record s { channel = rest } in
      let before : pending s ≡ told_of i ++ pending s1 =
        ap (λ c. waits c ++ in_hand s.reader) e
        ∙ append_assoc (told_of i) (waits rest) (in_hand s.reader) in
      let first = Queued-gets (pending s1) (told_of i) in
      record { order = rw before (Queued-trans first (handle-InOrder s1 stamp i).order) }

  write_end-InOrder :
      (s : Link) (what : String) (held : ℕ) (w : Written) → InOrder s (write_end j s what held w)
  unfolding write_end
  write_end-InOrder s what held w = elim (Result-cases (send_bounded what w)) [
    | inl h ↦ rw (h.1, write_end) (InOrder-quiet s _ refl)
    | inr h ↦ rw (h.1, write_end) (finish-InOrder s _)
  ]

  forward-InOrder : (s : Link) (frame : String) (c : List Inbound) → InOrder s (forward s frame c)
  unfolding forward
  forward-InOrder s frame [] = record { order = done }
  forward-InOrder s frame (i ∷ c) = InOrder-quiet s s refl

  beat-InOrder :
      (s : Link) (stamp version : String) (c : List Inbound) → InOrder s (beat j s stamp version c)
  unfolding beat
  beat-InOrder s stamp version [] = record { order = done }
  beat-InOrder s stamp version (i ∷ c) = InOrder-quiet s s refl

  by_loop-InOrder :
      (s : Link) (version : String) (e : Event) (p : LoopPhase)
      → InOrder s (by_loop j s version e p)
  unfolding by_loop by_selecting by_writing
  by_loop-InOrder s version (receives stamp) selecting = receive-InOrder s stamp s.channel refl
  by_loop-InOrder s version (forwards frame) selecting = forward-InOrder s frame s.channel
  by_loop-InOrder s version (beats stamp) selecting = beat-InOrder s stamp version s.channel
  by_loop-InOrder s version _ selecting = InOrder-quiet s s refl
  by_loop-InOrder s version (write_ends x) (writing what held) = write_end-InOrder s what held x
  by_loop-InOrder s version _ (writing what held) = InOrder-quiet s s refl
  by_loop-InOrder s version e (over r) = InOrder-quiet s s refl

module _ (j : Json) (digits : ℕ → String) (version : String) where
  by_event-InOrder : (s : Link) (e : Event) → InOrder s (by_event j digits version s e)
  unfolding by_event
  by_event-InOrder s (reads now f) = reads_frame-InOrder s now f s.reader refl
  by_event-InOrder s acquires = InOrder-quiet s _ (acquire-pending s s.reader refl)
  by_event-InOrder s (hands_over now) = InOrder-quiet s _ (hand_over-pending s now s.reader refl)
  by_event-InOrder s (checks now) = check_silence-InOrder digits s now s.reader
  by_event-InOrder s worker_takes = InOrder-quiet s _ refl
  by_event-InOrder s shuts_down = finish-InOrder s _
  by_event-InOrder s e = by_loop-InOrder j s version e s.loop

  step-InOrder : (s : Link) (e : Event) → InOrder s (step j digits version s e)
  unfolding step
  step-InOrder s e = elim (Bool-cases (is_over s.loop)) [
    | inl h ↦ rw (h, step) (InOrder-quiet s s refl)
    | inr h ↦ rw (h, step) (by_event-InOrder s e)
  ]

  run_session-InOrder : (s : Link) (es : List Event) → InOrder s (run_session j digits version s es)
  unfolding run_session
  run_session-InOrder s [] = InOrder-quiet s s refl
  run_session-InOrder s (e ∷ es) =
      let (s', a) = step j digits version s e in
      let (s'', b) = run_session j digits version s' es in
      record {
        order =
            rw (queue_ops-append a b)
              (Queued-trans (step-InOrder s e).order (run_session-InOrder s' es).order);
      }

  -- To the loop, the reader is an unbounded queue: whatever the events and however they fall, the texts
  -- and the end that the reader has read and those that the loop has taken are the operations of a
  -- first-in first-out queue on what waits between them, none lost, doubled or overtaken, with the
  -- bounded channel, the budget and the reader's waits for them unseen. So what was read is what the
  -- loop has taken, followed by what still waits.
  pub run_session-Queued :
      (start : ℕ) (es : List Event)
      → Queued []
          (queue_ops (run_session j digits version (opened start) es).1)
          (pending (run_session j digits version (opened start) es).0)
        × (all_put (queue_ops (run_session j digits version (opened start) es).1)
            ≡ all_got (queue_ops (run_session j digits version (opened start) es).1)
              ++ pending (run_session j digits version (opened start) es).0)
  unfolding opened
  run_session-Queued start es =
      let h = (run_session-InOrder (opened start) es).order in (h, Queued-order h)
