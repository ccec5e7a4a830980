-- ===== src/WsClient/Commands/Steps.antt =====
-- src/ws_client.rs: how one step of the session loop or of the worker moves the commands along.
use mathlib.Core.List.{append-nil}
use bilbycast_gateway_sdk.Base.{
  String, ◌≡◌, refl, ◌⊎◌, inl, inr, true, false, List, [], ◌∷◌, ◌++◌, arith, Option-cases,
}
use bilbycast_gateway_sdk.Json.{Json, get_str}
use bilbycast_gateway_sdk.Envelope.{IncomingMessage, parse}
use bilbycast_gateway_sdk.WsClient.Inbound.{
  QueuedCommand, CommandQueue, push, or_empty, enqueue, route_inbound, route_message,
}
use bilbycast_gateway_sdk.WsClient.Commands.{
  Session, Phase, waiting_for_turn, idle, running, Event, arrives, turn_granted, takes, finishes,
  cancels, ends, Output, take_next, by_phase,
}
use bilbycast_gateway_sdk.WsClient.Commands.Trace.{
  queued_by, queued_in, started_in, finished_in, let_go_in, in_progress,
}

module _ (j : Json) where
  waiting-enqueue :
      (now id text : String) (q : CommandQueue)
      → let out = enqueue j now q id text in q.waiting ++ queued_by out.1 ≡ out.0.waiting
  unfolding enqueue push
  waiting-enqueue now id text q = ground (arith, append-nil q.waiting)

  waiting-route_message :
      (now text : String) (q : CommandQueue) (m : IncomingMessage j)
      → let out = route_message j now q text m in q.waiting ++ queued_by out.1 ≡ out.0.waiting
  unfolding route_message
  waiting-route_message now text q m = ground (
    arith,
    append-nil q.waiting,
    waiting-enqueue now (or_empty (get_str j m.payload "command_id")) text q,
  )

  waiting-route_inbound :
      (now text : String) (q : CommandQueue)
      → let out = route_inbound j now q text in q.waiting ++ queued_by out.1 ≡ out.0.waiting
  unfolding route_inbound
  waiting-route_inbound now text q = elim (Option-cases (parse j text)) [
    | inl e ↦ rw (e, route_inbound) (append-nil q.waiting)
    | inr p ↦ rw (p.1, route_inbound) (waiting-route_message now text q p.0)
  ]

  -- What a step after the end of the session leaves alone.
  pub record IsQuiet (s s' : Session) (out : List (Output j)) : Type 0 where
    pub over : s'.over ≡ true
    pub waiting : s'.queue.waiting ≡ s.queue.waiting
    pub none_queued : queued_in out ≡ []
    pub none_started : started_in out ≡ []
    pub none_let_go : let_go_in out ≡ []
    pub runs : in_progress s.phase ≡ finished_in out ++ in_progress s'.phase

  pub by_phase-IsQuiet :
      (s : Session) (e : Event j) (p : Phase)
      → s.over ≡ true
      → s.phase ≡ p
      → let out = by_phase j s e p in IsQuiet s out.0 out.1
  unfolding by_phase
  by_phase-IsQuiet s (arrives now text) p h e = ground arith
  by_phase-IsQuiet s turn_granted waiting_for_turn h e = ground arith
  by_phase-IsQuiet s turn_granted _ h e = ground arith
  by_phase-IsQuiet s takes idle h e = ground arith
  by_phase-IsQuiet s takes _ h e = ground arith
  by_phase-IsQuiet s (finishes now v n) (running c) h e = ground arith
  by_phase-IsQuiet s (finishes now v n) _ h e = ground arith
  by_phase-IsQuiet s (cancels now v n) (running c) h e = ground arith
  by_phase-IsQuiet s (cancels now v n) _ h e = ground arith
  by_phase-IsQuiet s ends p h e = ground arith

  -- How a step of a session that is not over moves the commands along.
  pub record Follows (s s' : Session) (out : List (Output j)) : Type 0 where
    pub commands :
        s.queue.waiting ++ queued_in out ≡ started_in out ++ let_go_in out ++ s'.queue.waiting
    pub runs : in_progress s.phase ++ started_in out ≡ finished_in out ++ in_progress s'.phase

  take_next-Follows :
      (s : Session) (w : List QueuedCommand)
      → s.queue.waiting ≡ w
      → s.phase ≡ idle
      → let out = take_next j s w in Follows s out.0 out.1
  unfolding take_next
  take_next-Follows s [] e p = ground (arith, append-nil s.queue.waiting)
  take_next-Follows s (c ∷ w) e p = ground (arith, append-nil (c ∷ w))

  pub by_phase-Follows :
      (s : Session) (e : Event j) (p : Phase)
      → s.over ≡ false
      → s.phase ≡ p
      → let out = by_phase j s e p in Follows s out.0 out.1
  unfolding by_phase
  by_phase-Follows s (arrives now text) p h e = ground (
    arith,
    append-nil (queued_by (route_inbound j now s.queue text).1),
    waiting-route_inbound now text s.queue,
  )
  by_phase-Follows s turn_granted waiting_for_turn h e = ground (arith, append-nil s.queue.waiting)
  by_phase-Follows s turn_granted _ h e = ground (arith, append-nil s.queue.waiting)
  by_phase-Follows s takes idle h e = simp h (take_next-Follows s s.queue.waiting refl e)
  by_phase-Follows s takes _ h e = ground (arith, append-nil s.queue.waiting)
  by_phase-Follows s (finishes now v n) (running c) h e = ground (arith, append-nil s.queue.waiting)
  by_phase-Follows s (finishes now v n) _ h e = ground (arith, append-nil s.queue.waiting)
  by_phase-Follows s (cancels now v n) (running c) h e = ground (arith, append-nil s.queue.waiting)
  by_phase-Follows s (cancels now v n) _ h e = ground (arith, append-nil s.queue.waiting)
  by_phase-Follows s ends idle h e = ground (arith, append-nil s.queue.waiting)
  by_phase-Follows s ends _ h e = ground (arith, append-nil s.queue.waiting)

  take_next-let_go :
      (s : Session) (w : List QueuedCommand)
      → s.over ≡ false
      → (let_go_in (take_next j s w).1 ≡ []) × ((take_next j s w).0.over ≡ false)
  unfolding take_next
  take_next-let_go s [] h = (refl, h)
  take_next-let_go s (c ∷ w) h = (refl, h)

  -- Only the end of the session lets commands go.
  pub by_phase-let_go :
      (s : Session) (e : Event j) (p : Phase)
      → s.over ≡ false
      → let out = by_phase j s e p in
        ((let_go_in out.1 ≡ []) × (out.0.over ≡ false)) ⊎ (out.0.over ≡ true)
  unfolding by_phase
  by_phase-let_go s (arrives now text) p h = inl (ground arith, ground arith)
  by_phase-let_go s turn_granted waiting_for_turn h = inl (refl, h)
  by_phase-let_go s turn_granted _ h = inl (refl, h)
  by_phase-let_go s takes idle h = simp h (inl (take_next-let_go s s.queue.waiting h))
  by_phase-let_go s takes _ h = inl (refl, h)
  by_phase-let_go s (finishes now v n) (running c) h = inl (refl, h)
  by_phase-let_go s (finishes now v n) _ h = inl (refl, h)
  by_phase-let_go s (cancels now v n) (running c) h = inr (ground arith)
  by_phase-let_go s (cancels now v n) _ h = inl (refl, h)
  by_phase-let_go s ends p h = inr (ground arith)
