-- ===== src/WsClient/Commands/Queue.antt =====
-- src/ws_client.rs: what may wait for the worker, in number and in bytes.
use bilbycast_gateway_sdk.Base.{
  ℕ, ◌+◌, ◌≤◌, ◌<◌, String, len, ◌≡◌, refl, ◌⊎◌, inl, inr, List, [], ◌∷◌, ◌++◌, arith, Bool-cases,
  Option-cases, length, length-append, All, All-append, str_eq,
}
use bilbycast_gateway_sdk.Json.{Json, get_str}
use bilbycast_gateway_sdk.Envelope.{IncomingMessage, parse}
use bilbycast_gateway_sdk.WsClient.Inbound.{
  QueuedCommand, CommandQueue, or_empty, enqueue, route_inbound, route_message, push, u32_cost,
  command_queue_bytes, command_queue_size,
}
use bilbycast_gateway_sdk.WsClient.Commands.{
  Session, Phase, waiting_for_turn, idle, running, fresh, Event, arrives, turn_granted, takes,
  finishes, cancels, ends, take_next, by_phase, step, run,
}

abbrev pub held_total : List QueuedCommand → ℕ
held_total [] = 0
held_total (c ∷ cs) = c.held + held_total cs

-- The bytes of the frames that wait.
abbrev pub frame_bytes : List QueuedCommand → ℕ
frame_bytes [] = 0
frame_bytes (c ∷ cs) = len c.frame + frame_bytes cs

abbrev Priced : QueuedCommand → Type 0
Priced c = c.held ≡ u32_cost (len c.frame)

record IsBounded (q : CommandQueue) : Type 0 where
  within : q.permits + held_total q.waiting ≤ command_queue_bytes
  few : length q.waiting ≤ command_queue_size
  priced : All Priced q.waiting

held_total-append : (a b : List QueuedCommand) → held_total (a ++ b) ≡ held_total a + held_total b
held_total-append [] b = omega arith
held_total-append (c ∷ a) b = omega (arith, held_total-append a b)

command_of : String → String → QueuedCommand
command_of id text = record { id = id; frame = text; held = u32_cost (len text) }

push-IsBounded :
    (q : CommandQueue) (c : QueuedCommand)
    → IsBounded q
    → Priced c
    → c.held ≤ q.permits
    → length q.waiting < command_queue_size
    → IsBounded (push q c)
unfolding push
push-IsBounded q c v p h few = record {
  within = omega (arith, held_total-append q.waiting (c ∷ []), v.within);
  few = omega (arith, length-append q.waiting (c ∷ []));
  priced = All-append Priced q.waiting (c ∷ []) v.priced (p, tt);
}

module _ (j : Json) where
  enqueue_cases :
      (now id text : String) (q : CommandQueue)
      → ((enqueue j now q id text).0 ≡ q)
        ⊎ (((enqueue j now q id text).0 ≡ push q (command_of id text))
            × (u32_cost (len text) ≤ q.permits)
            × (length q.waiting < command_queue_size))
  unfolding enqueue command_of
  enqueue_cases now id text q = ground arith

  enqueue-IsBounded :
      (now id text : String) (q : CommandQueue)
      → IsBounded q
      → IsBounded (enqueue j now q id text).0
  unfolding command_of
  enqueue-IsBounded now id text q v = elim (enqueue_cases now id text q) [
    | inl e ↦ rw e v
    | inr (e, room, few) ↦ rw e (push-IsBounded q (command_of id text) v refl room few)
  ]

  route_message-IsBounded :
      (now text : String) (q : CommandQueue) (m : IncomingMessage j)
      → IsBounded q
      → IsBounded (route_message j now q text m).0
  unfolding route_message
  route_message-IsBounded now text q m v = elim (Bool-cases (str_eq m.msg_type "command")) [
    | inl e ↦
        rw (e, route_message)
          (enqueue-IsBounded now (or_empty (get_str j m.payload "command_id")) text q v)
    | inr e ↦ elim (Bool-cases (str_eq m.msg_type "ping")) [
      | inl e' ↦ rw (e, e', route_message) v
      | inr e' ↦ rw (e, e', route_message) v
    ]
  ]

  route_inbound-IsBounded :
      (now text : String) (q : CommandQueue)
      → IsBounded q
      → IsBounded (route_inbound j now q text).0
  unfolding route_inbound
  route_inbound-IsBounded now text q v = elim (Option-cases (parse j text)) [
    | inl e ↦ rw (e, route_inbound) v
    | inr p ↦ rw (p.1, route_inbound) (route_message-IsBounded now text q p.0 v)
  ]

  take_next-IsBounded :
      (s : Session) (w : List QueuedCommand)
      → s.queue.waiting ≡ w
      → IsBounded s.queue
      → IsBounded (take_next j s w).0.queue
  unfolding take_next
  take_next-IsBounded s [] e v = v
  take_next-IsBounded s (c ∷ w) e v =
      let v' : IsBounded (record s.queue { waiting = c ∷ w }) = rw (← e) v in
      record {
        within = omega (arith, v'.within);
        few = omega (arith, v'.few);
        priced = v'.priced.1;
      }

  by_phase-IsBounded :
      (s : Session) (e : Event j) (p : Phase)
      → IsBounded s.queue
      → IsBounded (by_phase j s e p).0.queue
  unfolding by_phase
  by_phase-IsBounded s (arrives now text) p v = elim (Bool-cases s.over) [
    | inl h ↦ rw (h, by_phase) v
    | inr h ↦ simp h (route_inbound-IsBounded now text s.queue v)
  ]
  by_phase-IsBounded s turn_granted waiting_for_turn v = v
  by_phase-IsBounded s turn_granted _ v = v
  by_phase-IsBounded s takes idle v = elim (Bool-cases s.over) [
    | inl h ↦ simp h v
    | inr h ↦ simp h (take_next-IsBounded s s.queue.waiting refl v)
  ]
  by_phase-IsBounded s takes _ v = v
  by_phase-IsBounded s (finishes now h n) (running c) v = v
  by_phase-IsBounded s (finishes now h n) _ v = v
  by_phase-IsBounded s (cancels now h n) (running c) v = elim (Bool-cases s.over) [
    | inl o ↦ simp o v
    | inr o ↦ simp o (record { within = omega (arith, v.within); few = omega arith; priced = tt })
  ]
  by_phase-IsBounded s (cancels now h n) _ v = v
  by_phase-IsBounded s ends p v = elim (Bool-cases s.over) [
    | inl h ↦ simp h v
    | inr h ↦ simp h (record { within = omega (arith, v.within); few = omega arith; priced = tt })
  ]

  run-IsBounded :
      (s : Session) (es : List (Event j)) → IsBounded s.queue → IsBounded (run j s es).0.queue
  unfolding run step
  run-IsBounded s [] v = v
  run-IsBounded s (e ∷ es) v =
      run-IsBounded (by_phase j s e s.phase).0 es (by_phase-IsBounded s e s.phase v)

-- Within the budget each frame counted in full, as it is below 4 GiB.
frame_bytes-le :
    (w : List QueuedCommand)
    → All Priced w
    → held_total w ≤ command_queue_bytes
    → frame_bytes w ≤ held_total w
frame_bytes-le [] p h = omega arith
frame_bytes-le (c ∷ w) p h =
    let rest = frame_bytes-le w p.1 (omega arith) in let price = p.0 in ground (arith, price, rest)

-- However the frames, the worker's steps and the end of the session fall, at most 64 commands wait
-- for the worker, and the frames that wait are at most 20 MiB together.
pub run-fresh_bounds :
    (j : Json) (es : List (Event j))
    → (length (run j fresh es).0.queue.waiting ≤ 64)
      × (frame_bytes (run j fresh es).0.queue.waiting ≤ 20971520)
run-fresh_bounds j es =
    let v =
      run-IsBounded j fresh es (record { within = omega arith; few = omega arith; priced = tt }) in
    (v.few, omega (arith, frame_bytes-le _ v.priced (omega (arith, v.within)), v.within))
