-- ===== src/WsClient/SessionLoop/Answers.antt =====
-- src/ws_client.rs, `drive_session`: a message of the manager that the session loop takes and answers.
use bilbycast_gateway_sdk.Base.{
  ℕ, ◌+◌, String, ◌≡◌, refl, inl, inr, true, false, Bool, List, arith, Bool-cases, Option-cases,
  str_eq,
}
use bilbycast_gateway_sdk.Json.{Json}
use bilbycast_gateway_sdk.Envelope.{parse, IncomingMessage}
use bilbycast_gateway_sdk.WsClient.Inbound.{
  CommandQueue, Routed, reply, failed as route_failed, route_inbound, route_message, enqueue, push,
}
use bilbycast_gateway_sdk.WsClient.SessionLoop.{
  Inbound, text, ping, closed, failed, ended, ReaderPhase, selecting, writing, Link, write_ends,
  Written, sent, send_after_closing, timed_out, write_error, after_route, handle, write_end,
  send_bounded, by_selecting, by_writing, by_loop, reply_name,
}

-- What the reader hands over while it still reads.
abbrev pub Plain : Inbound → Type 0
Plain (text t held) = Unit
Plain (ping b) = Unit
Plain _ = ⊥

abbrev pub answered : Routed → Bool
answered (route_failed e) = false
answered _ = true

pub record Alive (o : CommandQueue × Routed) : Type 0 where
  pub queue : o.0.alive ≡ true
  pub answers : answered o.1 ≡ true

module _ (j : Json) (stamp : String) where
  enqueue-Alive :
      (q : CommandQueue) (id t : String) → q.alive ≡ true → Alive (enqueue j stamp q id t)
  unfolding enqueue push
  enqueue-Alive q id t h = record { queue = ground (arith, h); answers = ground (arith, h) }

  route_message-Alive :
      (q : CommandQueue) (t : String) (m : IncomingMessage j)
      → q.alive ≡ true
      → Alive (route_message j stamp q t m)
  unfolding route_message
  route_message-Alive q t m h = elim (Bool-cases (str_eq m.msg_type "command")) [
    | inl e ↦ rw (e, route_message) (enqueue-Alive q _ t h)
    | inr e ↦ elim (Bool-cases (str_eq m.msg_type "ping")) [
      | inl e' ↦ rw (e, e', route_message) (record { queue = h; answers = refl })
      | inr e' ↦ rw (e, e', route_message) (record { queue = h; answers = refl })
    ]
  ]

  pub route_inbound-Alive :
      (q : CommandQueue) (t : String) → q.alive ≡ true → Alive (route_inbound j stamp q t)
  unfolding route_inbound
  route_inbound-Alive q t h = elim (Option-cases (parse j t)) [
    | inl e ↦ rw (e, route_inbound) (record { queue = h; answers = refl })
    | inr p ↦ rw (p.1, route_inbound) (route_message-Alive q t p.0 h)
  ]

-- A session between two writes, whose reader has the phase `p` and hands over the messages `c`.
pub record Idle (s : Link) (p : ReaderPhase) (c : List Inbound) : Type 0 where
  pub alive : s.commands.alive ≡ true
  pub reader : s.reader ≡ p
  pub channel : s.channel ≡ c
  pub loop : s.loop ≡ selecting

abbrev pub Fine : Written → Type 0
Fine sent = Unit
Fine send_after_closing = Unit
Fine _ = ⊥

module _ (j : Json) where
  pub write_end-selecting :
      (s : Link) (what : String) (held : ℕ) (w : Written)
      → Fine w
      → (write_end j s what held w).0 ≡ record s { loop = selecting; budget = s.budget + held }
  unfolding write_end send_bounded
  write_end-selecting s what held sent f = refl
  write_end-selecting s what held send_after_closing f = refl
  write_end-selecting s what held timed_out f = absurd f
  write_end-selecting s what held (write_error e) f = absurd f

  -- The loop ends the write that it may be in.
  unfoldable pub write_out : Link → String → Written → Link
  write_out s version w = (by_loop j s version (write_ends w) s.loop).0

  after_route-Idle :
      (s : Link) (version t : String) (held : ℕ) (r : Routed) (w : Written) (p : ReaderPhase)
      (c : List Inbound)
      → Fine w
      → answered r ≡ true
      → Idle s p c
      → Idle (write_out (after_route j s t held r).0 version w) p c
  unfolding write_out after_route by_loop by_writing by_selecting
  after_route-Idle s version t held (reply x) w p c f a v =
      rw (write_end-selecting (after_route j s t held (reply x)).0 (reply_name j t) held w f)
        (record { alive = v.alive; reader = v.reader; channel = v.channel; loop = refl })
  after_route-Idle s version t held (route_failed x) w p c f a v = absurd (ground (arith, a))
  after_route-Idle s version t held _ w p c f a v =
      rw (v.loop, write_out, after_route, by_loop, by_selecting)
        (record { alive = v.alive; reader = v.reader; channel = v.channel; loop = v.loop })

module _ (j : Json) (stamp : String) where
  -- The loop handles a message, and ends the write of its answer.
  pub handled-Idle :
      (s : Link) (version : String) (w : Written) (i : Inbound) (p : ReaderPhase) (c : List Inbound)
      → Fine w
      → Plain i
      → Idle s p c
      → Idle (write_out j (handle j s stamp i).0 version w) p c
  unfolding handle write_out by_loop by_writing
  handled-Idle s version w (text t held) p c f h v =
      let (q, r) = route_inbound j stamp s.commands t in
      let a = route_inbound-Alive j stamp s.commands t v.alive in
      after_route-Idle j (record s { commands = q }) version t held r w p c f a.answers
        (record { alive = a.queue; reader = v.reader; channel = v.channel; loop = v.loop })
  handled-Idle s version w (ping b) p c f h v =
      rw (write_end-selecting j (record s { loop = writing "pong" 0 }) "pong" 0 w f)
        (record { alive = v.alive; reader = v.reader; channel = v.channel; loop = refl })
  handled-Idle s version w (closed x) p c f h v = absurd h
  handled-Idle s version w (failed x) p c f h v = absurd h
  handled-Idle s version w ended p c f h v = absurd h
