-- ===== src/WsClient/SessionLoop/Budget.antt =====
-- src/ws_client.rs, `run_session`: what may wait for the session loop, in number and in bytes.
use bilbycast_gateway_sdk.Base.{
  ℕ, ◌+◌, ◌≤◌, String, ◌≡◌, refl, ap, subst, ◌⊎◌, inl, inr, true, List, [], ◌∷◌, arith, Bool-cases,
  Result-cases, length, All,
}
use bilbycast_gateway_sdk.Json.{Json}
use bilbycast_gateway_sdk.WsClient.Inbound.{Routed, reply, failed as route_failed, route_inbound}
use bilbycast_gateway_sdk.WsClient.Reconnect.{shutdown_requested}
use bilbycast_gateway_sdk.WsClient.SessionLoop.{
  Inbound, text, ping, closed, failed, ended, LoopPhase, selecting, writing, over, Link, opened,
  Event, reads, acquires, hands_over, checks, receives, forwards, beats, write_ends, worker_takes,
  shuts_down, finish, Written, after_route, handle, receive, forward, beat, write_end, send_bounded,
  by_selecting, by_writing, by_loop, by_event, is_over, step, run_session, inbound_channel_size,
  inbound_budget_bytes,
}
use bilbycast_gateway_sdk.WsClient.SessionLoop.Shares.{
  share, shares, loop_share, text_bytes, Priced, ReaderPriced, granted, IsBounded, finish-IsBounded,
  bounded, reads_frame-IsBounded, acquire-IsBounded, hand_over-IsBounded, check_silence-IsBounded,
}

module _ (j : Json) where
  -- The share that the loop has taken with a text is given back, or held by the write of its reply.
  after_route-IsBounded :
      (s : Link) (t : String) (held : ℕ) (r : Routed)
      → s.loop ≡ selecting
      → IsBounded (record s { loop = writing t held })
      → granted s + held ≡ inbound_budget_bytes
      → IsBounded (after_route j s t held r).0
  unfolding after_route finish
  after_route-IsBounded s t held (reply x) e v full =
      bounded _ (omega (arith, ap loop_share e, full)) v.few v.priced v.reader_priced
  after_route-IsBounded s t held (route_failed x) e v full = record {
    within = omega (arith, v.within);
    whole = inl refl;
    few = v.few;
    priced = v.priced;
    reader_priced = v.reader_priced;
  }
  after_route-IsBounded s t held _ e v full =
      bounded _ (omega (arith, full)) v.few v.priced v.reader_priced

  handle-IsBounded :
      (s : Link) (stamp : String) (i : Inbound)
      → s.loop ≡ selecting
      → granted s + share i ≡ inbound_budget_bytes
      → length s.channel ≤ inbound_channel_size
      → All Priced s.channel
      → ReaderPriced s.reader
      → IsBounded (handle j s stamp i).0
  unfolding handle finish
  handle-IsBounded s stamp (text t held) at full few priced rp =
      let (q, r) = route_inbound j stamp s.commands t in
      after_route-IsBounded (record s { commands = q }) t held r at
        (bounded _ (omega (arith, ap loop_share at, full)) few priced rp) full
  handle-IsBounded s stamp (ping b) at full few priced rp =
      bounded _ (omega (arith, ap loop_share at, full)) few priced rp
  handle-IsBounded s stamp _ at full few priced rp = record {
    within = omega (arith, full);
    whole = inl refl;
    few = few;
    priced = priced;
    reader_priced = rp;
  }

  receive-IsBounded :
      (s : Link) (stamp : String) (c : List Inbound)
      → s.channel ≡ c
      → s.loop ≡ selecting
      → granted s ≡ inbound_budget_bytes
      → IsBounded s
      → IsBounded (receive j s stamp c).0
  unfolding receive handle
  receive-IsBounded s stamp [] e at full v = v
  receive-IsBounded s stamp (i ∷ rest) e at full v =
      let priced : All Priced (i ∷ rest) = subst (All Priced) e v.priced in
      let few : length (i ∷ rest) ≤ inbound_channel_size =
        subst (λ c. length c ≤ inbound_channel_size) e v.few in
      let total : granted (record s { channel = rest }) + share i ≡ inbound_budget_bytes =
        omega (arith, ap shares e, full) in
      handle-IsBounded (record s { channel = rest }) stamp i at total (omega arith) priced.1
        v.reader_priced

  write_end-IsBounded :
      (s : Link) (what : String) (held : ℕ) (w : Written)
      → s.loop ≡ writing what held
      → granted s ≡ inbound_budget_bytes
      → IsBounded s
      → IsBounded (write_end j s what held w).0
  unfolding write_end
  write_end-IsBounded s what held w e full v = elim (Result-cases (send_bounded what w)) [
    | inl h ↦
        rw (h.1, write_end)
          (bounded _ (omega (arith, ap loop_share e, full)) v.few v.priced v.reader_priced)
    | inr h ↦ rw (h.1, write_end) (finish-IsBounded s _ v)
  ]

  starts_write-IsBounded :
      (s : Link) (what : String)
      → s.loop ≡ selecting
      → granted s ≡ inbound_budget_bytes
      → IsBounded s
      → IsBounded (record s { loop = writing what 0 })
  starts_write-IsBounded s what e full v =
      bounded _ (omega (arith, ap loop_share e, full)) v.few v.priced v.reader_priced

  forward-IsBounded :
      (s : Link) (frame : String) (c : List Inbound)
      → s.loop ≡ selecting
      → granted s ≡ inbound_budget_bytes
      → IsBounded s
      → IsBounded (forward s frame c).0
  unfolding forward
  forward-IsBounded s frame [] at full v = starts_write-IsBounded s _ at full v
  forward-IsBounded s frame (i ∷ c) at full v = v

  beat-IsBounded :
      (s : Link) (stamp version : String) (c : List Inbound)
      → s.loop ≡ selecting
      → granted s ≡ inbound_budget_bytes
      → IsBounded s
      → IsBounded (beat j s stamp version c).0
  unfolding beat
  beat-IsBounded s stamp version [] at full v = starts_write-IsBounded s _ at full v
  beat-IsBounded s stamp version (i ∷ c) at full v = v

  by_selecting-IsBounded :
      (s : Link) (version : String) (e : Event)
      → s.loop ≡ selecting
      → granted s ≡ inbound_budget_bytes
      → IsBounded s
      → IsBounded (by_selecting j s version e).0
  unfolding by_selecting
  by_selecting-IsBounded s version (receives stamp) at full v =
      receive-IsBounded s stamp s.channel refl at full v
  by_selecting-IsBounded s version (forwards frame) at full v =
      forward-IsBounded s frame s.channel at full v
  by_selecting-IsBounded s version (beats stamp) at full v =
      beat-IsBounded s stamp version s.channel at full v
  by_selecting-IsBounded s version _ at full v = v

  by_loop-IsBounded :
      (s : Link) (version : String) (e : Event) (p : LoopPhase)
      → s.loop ≡ p
      → granted s ≡ inbound_budget_bytes
      → IsBounded s
      → IsBounded (by_loop j s version e p).0
  unfolding by_loop by_writing
  by_loop-IsBounded s version e selecting at full v = by_selecting-IsBounded s version e at full v
  by_loop-IsBounded s version (write_ends w) (writing what held) at full v =
      write_end-IsBounded s what held w at full v
  by_loop-IsBounded s version _ (writing what held) at full v = v
  by_loop-IsBounded s version e (over r) at full v = v

module _ (j : Json) (digits : ℕ → String) (version : String) where
  by_event-IsBounded :
      (s : Link) (e : Event)
      → granted s ≡ inbound_budget_bytes
      → IsBounded s
      → IsBounded (by_event j digits version s e).0
  unfolding by_event
  by_event-IsBounded s (reads now f) full v = reads_frame-IsBounded s now f s.reader refl full v
  by_event-IsBounded s acquires full v = acquire-IsBounded s s.reader refl full v
  by_event-IsBounded s (hands_over now) full v = hand_over-IsBounded s now s.reader refl full v
  by_event-IsBounded s (checks now) full v = check_silence-IsBounded digits s now s.reader v
  by_event-IsBounded s worker_takes full v = bounded _ full v.few v.priced v.reader_priced
  by_event-IsBounded s shuts_down full v = finish-IsBounded s shutdown_requested v
  by_event-IsBounded s e full v = by_loop-IsBounded j s version e s.loop refl full v

  step-IsBounded : (s : Link) (e : Event) → IsBounded s → IsBounded (step j digits version s e).0
  unfolding step
  step-IsBounded s e v = elim (Bool-cases (is_over s.loop)) [
    | inl h ↦ rw (h, step) v
    | inr h ↦ elim v.whole [
      | inl h' ↦ absurd (ground (arith, h, h'))
      | inr full ↦ rw (h, step) (by_event-IsBounded s e full v)
    ]
  ]

  run_session-IsBounded :
      (s : Link) (es : List Event) → IsBounded s → IsBounded (run_session j digits version s es).0
  unfolding run_session
  run_session-IsBounded s [] v = v
  run_session-IsBounded s (e ∷ es) v =
      run_session-IsBounded (step j digits version s e).0 es (step-IsBounded s e v)

-- A text below 4 GiB has its size as its share.
text_bytes-le :
    (c : List Inbound) → All Priced c → shares c ≤ inbound_budget_bytes → text_bytes c ≤ shares c
text_bytes-le [] p h = omega arith
text_bytes-le (text t held ∷ c) p h =
    let rest = text_bytes-le c p.1 (omega arith) in let price = p.0 in ground (arith, price, rest)
text_bytes-le (ping b ∷ c) p h = omega (arith, text_bytes-le c p.1 (omega (arith, h)))
text_bytes-le (closed f ∷ c) p h = omega (arith, text_bytes-le c p.1 (omega (arith, h)))
text_bytes-le (failed x ∷ c) p h = omega (arith, text_bytes-le c p.1 (omega (arith, h)))
text_bytes-le (ended ∷ c) p h = omega (arith, text_bytes-le c p.1 (omega (arith, h)))

module _ (j : Json) (digits : ℕ → String) (version : String) where
  -- Whatever the events and however they fall, at most 256 messages wait for the session loop, with
  -- texts of at most 20 MiB together; and until the session is over no share of the budget is lost:
  -- what is left of it and the shares of the texts that wait, of the one in the reader's hand and of
  -- the one whose reply is being written are the whole budget.
  pub run_session-budget :
      (start : ℕ) (es : List Event)
      → (length (run_session j digits version (opened start) es).0.channel ≤ 256)
        × (text_bytes (run_session j digits version (opened start) es).0.channel ≤ 20971520)
        × ((is_over (run_session j digits version (opened start) es).0.loop ≡ true)
            ⊎ (granted (run_session j digits version (opened start) es).0 ≡ 20971520))
  unfolding opened
  run_session-budget start es =
      let v =
        run_session-IsBounded j digits version (opened start) es
          (bounded (opened start) (omega arith) (omega arith) tt tt) in
      (v.few, omega (arith, text_bytes-le _ v.priced (omega (arith, v.within)), v.within), v.whole)
