-- ===== src/WsClient/SessionLoop/Endings.antt =====
-- src/ws_client.rs, `run_session` and `send_bounded`: a manager that closes the session, and the writes
-- that are still on their way to it then.
use bilbycast_gateway_sdk.Base.{
  ℕ, String, ◌≡◌, refl, sym, subst, ◌∙◌, ◌⊎◌, inl, inr, true, false, List, [], ◌∷◌, arith, Option,
  Bool-cases, length, All, suc,
}
use bilbycast_gateway_sdk.WsClient.SessionLoop.Answers.{Plain, Fine, Idle, write_end-selecting}
use bilbycast_gateway_sdk.WsClient.SessionLoop.Closing.{run_to, sending-closes, rounds}
use bilbycast_gateway_sdk.Json.{Json}
use bilbycast_gateway_sdk.WsClient.Reconnect.{authenticated_then_closed, shutdown_requested}
use bilbycast_gateway_sdk.WsClient.SessionLoop.{
  close_frame, closed, reading, sending, LoopPhase, selecting, writing, over, Link, opened, Event,
  reads, acquires, hands_over, checks, write_ends, worker_takes, shuts_down, take_in, Written, sent,
  send_after_closing, reads_frame, by_selecting, by_writing, by_loop, by_event, is_over, step,
  run_session,
}
use bilbycast_gateway_sdk.WsClient.SessionLoop.Live.{
  Reads, IsLive, worker_take-alive, finish-IsLive, reads_frame-IsLive, acquire-IsLive,
  hand_over-IsLive, check_silence-IsLive, by_loop-IsLive,
}

module _ (j : Json) (digits : ℕ → String) (version : String) where
  by_event-IsLive : (s : Link) (e : Event) → IsLive s → IsLive (by_event j digits version s e).0
  unfolding by_event
  by_event-IsLive s (reads now f) v = reads_frame-IsLive s now f s.reader refl v
  by_event-IsLive s acquires v = acquire-IsLive s s.reader refl v
  by_event-IsLive s (hands_over now) v = hand_over-IsLive s now s.reader refl v
  by_event-IsLive s (checks now) v = check_silence-IsLive digits s now s.reader v
  by_event-IsLive s worker_takes v = record {
    alive = worker_take-alive s.commands s.commands.waiting ∙ v.alive;
    reads = v.reads;
  }
  by_event-IsLive s shuts_down v = finish-IsLive s shutdown_requested v
  by_event-IsLive s e v = by_loop-IsLive j s version e s.loop v

  run_session-IsLive :
      (s : Link) (es : List Event) → IsLive s → IsLive (run_session j digits version s es).0
  unfolding run_session step
  run_session-IsLive s [] v = v
  run_session-IsLive s (e ∷ es) v = elim (Bool-cases (is_over s.loop)) [
    | inl h ↦ rw (h, run_session, step) (run_session-IsLive s es v)
    | inr h ↦
        rw (h, run_session, step)
          (run_session-IsLive (by_event j digits version s e).0 es (by_event-IsLive s e v))
  ]

  step-close_frame :
      (s : Link) (now : ℕ) (x : Option String)
      → is_over s.loop ≡ false
      → s.reader ≡ reading
      → (step j digits version s (reads now (close_frame x))).0 ≡ take_in s now (close_frame x)
  unfolding step by_event reads_frame
  step-close_frame s now x on r = simp (on, r) refl

  step-write_ends-Idle :
      (s : Link) (w : Written) (p : LoopPhase) (x : Option String)
      → s.loop ≡ p
      → is_over p ≡ false
      → Fine w
      → s.reader ≡ sending (closed x)
      → s.commands.alive ≡ true
      → Idle (step j digits version s (write_ends w)).0 (sending (closed x)) s.channel
  unfolding step by_event by_loop by_selecting by_writing
  step-write_ends-Idle s w (over r) x e on f r' a = absurd (ground (arith, on))
  step-write_ends-Idle s w selecting x e on f r a =
      simp (e, step, by_event) (record { alive = a; reader = r; channel = refl; loop = e })
  step-write_ends-Idle s w (writing what held) x e on f r a =
      simp (e, step, by_event, write_end-selecting j s what held w f)
        (record { alive = a; reader = r; channel = refl; loop = refl })

  -- Once the reader has read the manager's Close, in whatever state of a session that is not over and
  -- whatever came before, a clean close is what the session ends in: when the write in progress has
  -- ended and each of the messages that wait for the loop has been taken and answered, and one more
  -- has, the session has ended as closed and not as lost, even if every one of these writes is refused
  -- because the manager has closed the connection.
  pub run_session-closes :
      (start : ℕ) (es : List Event) (now : ℕ) (stamp : String) (w : Written) (x : Option String)
      → is_over (run_session j digits version (opened start) es).0.loop ≡ false
      → (run_session j digits version (opened start) es).0.reader ≡ reading
      → (w ≡ sent) ⊎ (w ≡ send_after_closing)
      → (run_session j digits version (run_session j digits version (opened start) es).0 (
          reads now (close_frame x)
          ∷ write_ends w
          ∷ rounds
              (suc (length (run_session j digits version (opened start) es).0.channel))
              now
              stamp
              w)).0.loop
        ≡ over authenticated_then_closed
  unfolding opened take_in
  run_session-closes start es now stamp w x on r f =
      let v = run_session-IsLive (opened start) es (record { alive = refl; reads = tt }) in
      let s = (run_session j digits version (opened start) es).0 in
      let s1 = take_in s now (close_frame x) in
      let fine : Fine w = elim f [
        | inl e ↦ subst Fine (sym e) tt
        | inr e ↦ subst Fine (sym e) tt
      ] in
      let idle = step-write_ends-Idle s1 w s1.loop x refl on fine refl v.alive in
      let plain : All Plain s.channel = subst (λ p. Reads p s.channel) r v.reads in
      run_to j digits version s s1 (reads now (close_frame x)) _ (step-close_frame s now x on r)
      ∙ run_to j digits version s1 _ (write_ends w) _ refl
      ∙ sending-closes j digits version (step j digits version s1 (write_ends w)).0 now stamp w x
          s.channel fine plain idle
