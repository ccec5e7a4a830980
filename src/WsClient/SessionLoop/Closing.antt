-- ===== src/WsClient/SessionLoop/Closing.antt =====
-- src/ws_client.rs, `run_session`: how the loop works off what waits for it, up to the manager's Close.
use bilbycast_gateway_sdk.Base.{
  ℕ, String, ◌≡◌, refl, sym, ap, ◌∙◌, inl, inr, true, false, List, [], ◌∷◌, ◌++◌, Option,
  Bool-cases, length, ltb, All, zero, suc,
}
use bilbycast_gateway_sdk.WsClient.SessionLoop.Answers.{Plain, Fine, Idle, write_out, handled-Idle}
use bilbycast_gateway_sdk.Json.{Json}
use bilbycast_gateway_sdk.WsClient.Reconnect.{authenticated_then_closed}
use bilbycast_gateway_sdk.WsClient.SessionLoop.{
  Inbound, closed, ReaderPhase, parked, sending, LoopPhase, selecting, writing, over, Link, Event,
  hands_over, receives, write_ends, finish, Written, after_handover, hand_over, handle, receive,
  by_selecting, by_loop, by_event, is_over, step, run_session, inbound_channel_size,
}

-- One event of the reader and two of the loop: a message handed over if there is room, one taken, and
-- the write of its answer ended; so often.
abbrev pub rounds : ℕ → ℕ → String → Written → List Event
rounds zero now stamp w = []
rounds (suc n) now stamp w = hands_over now ∷ receives stamp ∷ write_ends w ∷ rounds n now stamp w

module _ (j : Json) (digits : ℕ → String) (version : String) where
  run-over :
      (s : Link) (es : List Event)
      → is_over s.loop ≡ true
      → (run_session j digits version s es).0 ≡ s
  unfolding run_session step
  run-over s [] h = refl
  run-over s (e ∷ es) h = rw (h, run-over s es h) refl

  step-receives :
      (s : Link) (stamp : String) (i : Inbound) (p : ReaderPhase) (rest : List Inbound)
      → Idle s p (i ∷ rest)
      → (step j digits version s (receives stamp)).0
        ≡ (handle j (record s { channel = rest }) stamp i).0
  unfolding step by_event by_loop by_selecting receive
  step-receives s stamp i p rest v = rw (v.loop, v.channel, is_over, step) refl

  step-write_ends_at :
      (s : Link) (w : Written) (p : LoopPhase)
      → s.loop ≡ p
      → (step j digits version s (write_ends w)).0 ≡ write_out j s version w
  unfolding step by_event write_out by_loop
  step-write_ends_at s w (over r) e = simp (e, step, by_loop, write_out) refl
  step-write_ends_at s w selecting e = simp (e, step, by_loop, write_out) refl
  step-write_ends_at s w (writing what held) e = simp (e, step, by_loop, write_out) refl

  -- A round of a reader that has no room, or has parked, from a loop that selects.
  round-Idle :
      (s : Link) (now : ℕ) (stamp : String) (w : Written) (i : Inbound) (p : ReaderPhase)
      (rest : List Inbound) (es : List Event)
      → Fine w
      → Plain i
      → Idle s p (i ∷ rest)
      → (s' : Link) × Idle s' p rest
        × ((run_session j digits version s (receives stamp ∷ write_ends w ∷ es)).0
            ≡ (run_session j digits version s' es).0)
  unfolding run_session write_out
  round-Idle s now stamp w i p rest es f h v =
      let s1 = record s { channel = rest } in
      let s2 = (handle j s1 stamp i).0 in
      let idle =
        handled-Idle j stamp s1 version w i p rest f h
          (record { alive = v.alive; reader = v.reader; channel = refl; loop = v.loop }) in
      (
        write_out j s2 version w,
        idle,
        rw (step-receives s stamp i p rest v, step-write_ends_at s2 w s2.loop refl) refl,
      )

  ends_closed :
      (s : Link) (stamp : String) (w : Written) (x : Option String) (p : ReaderPhase)
      (rest : List Inbound) (es : List Event)
      → Idle s p (closed x ∷ rest)
      → (run_session j digits version s (receives stamp ∷ es)).0.loop
        ≡ over authenticated_then_closed
  unfolding run_session handle finish
  ends_closed s stamp w x p rest es v =
      let s1 = record s { channel = rest; loop = over authenticated_then_closed } in
      rw (step-receives s stamp (closed x) p rest v, run-over s1 es refl) refl

  step-hands_over_parked :
      (s : Link) (now : ℕ) → s.reader ≡ parked → (step j digits version s (hands_over now)).0 ≡ s
  unfolding step by_event hand_over
  step-hands_over_parked s now e = elim (Bool-cases (is_over s.loop)) [
    | inl h ↦ rw (h, step) refl
    | inr h ↦ simp (h, e) refl
  ]

  pub run_to :
      (s s' : Link) (e : Event) (es : List Event)
      → (step j digits version s e).0 ≡ s'
      → (run_session j digits version s (e ∷ es)).0.loop
        ≡ (run_session j digits version s' es).0.loop
  unfolding run_session
  run_to s s' e es h = ap (λ (l : Link). (run_session j digits version l es).0.loop) h

  parked-closes :
      (s : Link) (now : ℕ) (stamp : String) (w : Written) (x : Option String) (c : List Inbound)
      → Fine w
      → All Plain c
      → Idle s parked (c ++ closed x ∷ [])
      → (run_session j digits version s (rounds (suc (length c)) now stamp w)).0.loop
        ≡ over authenticated_then_closed
  parked-closes s now stamp w x [] f h v =
      run_to s s (hands_over now) _ (step-hands_over_parked s now v.reader)
      ∙ ends_closed s stamp w x parked [] (write_ends w ∷ []) v
  parked-closes s now stamp w x (i ∷ c) f h v =
      let es = rounds (suc (length c)) now stamp w in
      let (s', idle, same) = round-Idle s now stamp w i parked (c ++ closed x ∷ []) es f h.0 v in
      run_to s s (hands_over now) _ (step-hands_over_parked s now v.reader)
      ∙ ap (λ (l : Link). l.loop) same
      ∙ parked-closes s' now stamp w x c f h.1 idle

  step-hands_over_full :
      (s : Link) (now : ℕ) (i : Inbound)
      → s.reader ≡ sending i
      → ltb (length s.channel) inbound_channel_size ≡ false
      → (step j digits version s (hands_over now)).0 ≡ s
  unfolding step by_event hand_over
  step-hands_over_full s now i e full = elim (Bool-cases (is_over s.loop)) [
    | inl h ↦ rw (h, step) refl
    | inr h ↦ simp (h, e, full) refl
  ]

  step-hands_over_close :
      (s : Link) (now : ℕ) (x : Option String) (c : List Inbound)
      → Idle s (sending (closed x)) c
      → ltb (length c) inbound_channel_size ≡ true
      → (step j digits version s (hands_over now)).0
        ≡ record s { reader = parked; channel = c ++ closed x ∷ [] }
  unfolding step by_event hand_over after_handover
  step-hands_over_close s now x c v room = simp (v.loop, v.reader, v.channel, room) refl

  pub sending-closes :
      (s : Link) (now : ℕ) (stamp : String) (w : Written) (x : Option String) (c : List Inbound)
      → Fine w
      → All Plain c
      → Idle s (sending (closed x)) c
      → (run_session j digits version s (rounds (suc (length c)) now stamp w)).0.loop
        ≡ over authenticated_then_closed
  sending-closes s now stamp w x [] f h v =
      let s1 = record s { reader = parked; channel = closed x ∷ [] } in
      run_to s s1 (hands_over now) _ (step-hands_over_close s now x [] v refl)
      ∙ ends_closed s1 stamp w x parked [] (write_ends w ∷ [])
          (record { alive = v.alive; reader = refl; channel = refl; loop = v.loop })
  sending-closes s now stamp w x (i ∷ c) f h v =
      elim (Bool-cases (ltb (length (i ∷ c)) inbound_channel_size)) [
        | inl room ↦
            let s1 = record s { reader = parked; channel = (i ∷ c) ++ closed x ∷ [] } in
            run_to s s1 (hands_over now) _ (step-hands_over_close s now x (i ∷ c) v room)
            ∙ sym (run_to s1 s1 (hands_over now) _ (step-hands_over_parked s1 now refl))
            ∙ parked-closes s1 now stamp w x (i ∷ c) f h
                (record { alive = v.alive; reader = refl; channel = refl; loop = v.loop })
        | inr full ↦
            let es = rounds (suc (length c)) now stamp w in
            let (s', idle, same) = round-Idle s now stamp w i (sending (closed x)) c es f h.0 v in
            run_to s s (hands_over now) _ (
              step-hands_over_full s now (closed x) v.reader
                (ap (λ d. ltb (length d) inbound_channel_size) v.channel ∙ full))
            ∙ ap (λ (l : Link). l.loop) same
            ∙ sending-closes s' now stamp w x c f h.1 idle
      ]
