-- ===== src/WsClient/SessionLoop/Live.antt =====
-- src/ws_client.rs, `run_session`: what holds of a session as long as its reader reads.
use bilbycast_gateway_sdk.Base.{
  ℕ, String, len, ◌≡◌, refl, subst, inl, inr, true, List, [], ◌∷◌, Bool-cases, Option-cases,
  Result-cases, length, ltb, leb, All, All-append,
}
use bilbycast_gateway_sdk.WsClient.SessionLoop.Answers.{Plain, route_inbound-Alive}
use bilbycast_gateway_sdk.Json.{Json}
use bilbycast_gateway_sdk.WsClient.Cadence.{dead_for}
use bilbycast_gateway_sdk.WsClient.Inbound.{
  CommandQueue, Routed, reply, failed as route_failed, u32_cost, route_inbound, QueuedCommand,
}
use bilbycast_gateway_sdk.WsClient.Reconnect.{ConnectionResult, shutdown_requested}
use bilbycast_gateway_sdk.WsClient.SessionLoop.{
  Incoming, ping_frame, text_frame, close_frame, read_error, stream_end, Inbound, text, ping,
  closed, failed, ended, ReaderPhase, reading, parked, acquiring, sending, LoopPhase, selecting,
  writing, over, Link, Event, receives, forwards, beats, write_ends, finish, offer_ping, take_in,
  Written, reads_frame, acquire, after_handover, hand_over, check_silence, after_route, handle,
  receive, forward, beat, write_end, send_bounded, by_selecting, by_writing, by_loop,
  inbound_channel_size, worker_take,
}

-- The reader that has not parked has handed over nothing that ends the session.
abbrev pub Reads : ReaderPhase → List Inbound → Type 0
Reads parked c = Unit
Reads _ c = All Plain c

pub record IsLive (s : Link) : Type 0 where
  pub alive : s.commands.alive ≡ true
  pub reads : Reads s.reader s.channel

pub worker_take-alive :
    (q : CommandQueue) (w : List QueuedCommand) → (worker_take q w).alive ≡ q.alive
unfolding worker_take
worker_take-alive q [] = refl
worker_take-alive q (c ∷ w) = refl

Reads-Plain : (p : ReaderPhase) (c : List Inbound) → All Plain c → Reads p c
Reads-Plain parked c h = tt
Reads-Plain reading c h = h
Reads-Plain (acquiring t) c h = h
Reads-Plain (sending i) c h = h

Reads-tail : (p : ReaderPhase) (i : Inbound) (c : List Inbound) → Reads p (i ∷ c) → Reads p c
Reads-tail parked i c h = tt
Reads-tail reading i c h = h.1
Reads-tail (acquiring t) i c h = h.1
Reads-tail (sending k) i c h = h.1

pub finish-IsLive : (s : Link) (r : ConnectionResult) → IsLive s → IsLive (finish s r).0
unfolding finish
finish-IsLive s shutdown_requested v = record { alive = v.alive; reads = v.reads }
finish-IsLive s _ v = record { alive = v.alive; reads = v.reads }

take_in-IsLive :
    (s : Link) (now : ℕ) (f : Incoming)
    → s.reader ≡ reading
    → s.commands.alive ≡ true
    → All Plain s.channel
    → IsLive (take_in s now f)
unfolding take_in offer_ping
take_in-IsLive s now (ping_frame b) e a h =
    elim (Bool-cases (ltb (length s.channel) inbound_channel_size)) [
      | inl room ↦
          rw (room, take_in, offer_ping)
            (record {
              alive = a;
              reads = Reads-Plain s.reader _ (All-append Plain s.channel (ping b ∷ []) h (tt, tt));
            })
      | inr full ↦
          rw (full, take_in, offer_ping) (record { alive = a; reads = Reads-Plain s.reader _ h })
    ]
take_in-IsLive s now (text_frame t) e a h = record { alive = a; reads = h }
take_in-IsLive s now (close_frame t) e a h = record { alive = a; reads = h }
take_in-IsLive s now (read_error t) e a h = record { alive = a; reads = h }
take_in-IsLive s now stream_end e a h = record { alive = a; reads = h }
take_in-IsLive s now _ e a h = record { alive = a; reads = Reads-Plain s.reader _ h }

pub reads_frame-IsLive :
    (s : Link) (now : ℕ) (f : Incoming) (p : ReaderPhase)
    → s.reader ≡ p
    → IsLive s
    → IsLive (reads_frame s now f p).0
unfolding reads_frame
reads_frame-IsLive s now f reading e v =
    take_in-IsLive s now f e v.alive (subst (λ r. Reads r s.channel) e v.reads)
reads_frame-IsLive s now f _ e v = v

pub acquire-IsLive : (s : Link) (p : ReaderPhase) → s.reader ≡ p → IsLive s → IsLive (acquire s p)
unfolding acquire
acquire-IsLive s (acquiring t) e v = elim (Bool-cases (leb (u32_cost (len t)) s.budget)) [
  | inl h ↦
      rw (h, acquire) (record { alive = v.alive; reads = subst (λ r. Reads r s.channel) e v.reads })
  | inr h ↦ rw (h, acquire) v
]
acquire-IsLive s _ e v = v

pub hand_over-IsLive :
    (s : Link) (now : ℕ) (p : ReaderPhase) → s.reader ≡ p → IsLive s → IsLive (hand_over s now p)
unfolding hand_over after_handover
hand_over-IsLive s now (sending (text t held)) e v =
    let plain : All Plain s.channel = subst (λ r. Reads r s.channel) e v.reads in
    elim (Bool-cases (ltb (length s.channel) inbound_channel_size)) [
      | inl h ↦
          rw (h, hand_over)
            (record {
              alive = v.alive;
              reads = All-append Plain s.channel (text t held ∷ []) plain (tt, tt);
            })
      | inr h ↦ rw (h, hand_over) v
    ]
hand_over-IsLive s now (sending _) e v =
    elim (Bool-cases (ltb (length s.channel) inbound_channel_size)) [
      | inl h ↦ rw (h, hand_over) (record { alive = v.alive; reads = tt })
      | inr h ↦ rw (h, hand_over) v
    ]
hand_over-IsLive s now _ e v = v

pub check_silence-IsLive :
    (digits : ℕ → String) (s : Link) (now : ℕ) (p : ReaderPhase)
    → IsLive s
    → IsLive (check_silence digits s now p).0
unfolding check_silence
check_silence-IsLive digits s now reading v = elim (Option-cases (dead_for s.cadence now)) [
  | inl e ↦ rw (e, check_silence) v
  | inr h ↦ rw (h.1, check_silence) (finish-IsLive s _ v)
]
check_silence-IsLive digits s now _ v = v

module _ (j : Json) where
  after_route-IsLive :
      (s : Link) (t : String) (held : ℕ) (r : Routed)
      → IsLive s
      → IsLive (after_route j s t held r).0
  unfolding after_route
  after_route-IsLive s t held (reply x) v = record { alive = v.alive; reads = v.reads }
  after_route-IsLive s t held (route_failed x) v = finish-IsLive s _ v
  after_route-IsLive s t held _ v = record { alive = v.alive; reads = v.reads }

  handle-IsLive :
      (s : Link) (stamp : String) (i : Inbound) → IsLive s → IsLive (handle j s stamp i).0
  unfolding handle
  handle-IsLive s stamp (text t held) v =
      let r = route_inbound j stamp s.commands t in
      let a = route_inbound-Alive j stamp s.commands t v.alive in
      after_route-IsLive (record s { commands = r.0 }) t held r.1
        (record { alive = a.queue; reads = v.reads })
  handle-IsLive s stamp (ping b) v = record { alive = v.alive; reads = v.reads }
  handle-IsLive s stamp (closed x) v = finish-IsLive s _ v
  handle-IsLive s stamp (failed x) v = finish-IsLive s _ v
  handle-IsLive s stamp ended v = finish-IsLive s _ v

  receive-IsLive :
      (s : Link) (stamp : String) (c : List Inbound)
      → s.channel ≡ c
      → IsLive s
      → IsLive (receive j s stamp c).0
  unfolding receive
  receive-IsLive s stamp [] e v = v
  receive-IsLive s stamp (i ∷ c) e v =
      handle-IsLive (record s { channel = c }) stamp i
        (record {
          alive = v.alive;
          reads = Reads-tail s.reader i c (subst (Reads s.reader) e v.reads);
        })

  write_end-IsLive :
      (s : Link) (what : String) (held : ℕ) (w : Written)
      → IsLive s
      → IsLive (write_end j s what held w).0
  unfolding write_end
  write_end-IsLive s what held w v = elim (Result-cases (send_bounded what w)) [
    | inl h ↦ rw (h.1, write_end) (record { alive = v.alive; reads = v.reads })
    | inr h ↦ rw (h.1, write_end) (finish-IsLive s _ v)
  ]

  forward-IsLive :
      (s : Link) (frame : String) (c : List Inbound) → IsLive s → IsLive (forward s frame c).0
  unfolding forward
  forward-IsLive s frame [] v = record { alive = v.alive; reads = v.reads }
  forward-IsLive s frame (i ∷ c) v = v

  beat-IsLive :
      (s : Link) (stamp version : String) (c : List Inbound)
      → IsLive s
      → IsLive (beat j s stamp version c).0
  unfolding beat
  beat-IsLive s stamp version [] v = record { alive = v.alive; reads = v.reads }
  beat-IsLive s stamp version (i ∷ c) v = v

  pub by_loop-IsLive :
      (s : Link) (version : String) (e : Event) (p : LoopPhase)
      → IsLive s
      → IsLive (by_loop j s version e p).0
  unfolding by_loop by_selecting by_writing
  by_loop-IsLive s version (receives stamp) selecting v = receive-IsLive s stamp s.channel refl v
  by_loop-IsLive s version (forwards frame) selecting v = forward-IsLive s frame s.channel v
  by_loop-IsLive s version (beats stamp) selecting v = beat-IsLive s stamp version s.channel v
  by_loop-IsLive s version _ selecting v = v
  by_loop-IsLive s version (write_ends w) (writing what held) v = write_end-IsLive s what held w v
  by_loop-IsLive s version _ (writing what held) v = v
  by_loop-IsLive s version e (over r) v = v
