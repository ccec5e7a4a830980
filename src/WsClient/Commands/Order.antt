-- ===== src/WsClient/Commands/Order.antt =====
-- src/ws_client.rs, `run_commands`: the order in which a session's commands run, and what becomes of
-- them when the session ends.
use mathlib.Core.List.{append-nil, append_assoc}
use bilbycast_gateway_sdk.Base.{
  ◌≡◌, refl, sym, ap, ap₂, ◌∙◌, inl, inr, true, false, List, [], ◌∷◌, ◌++◌,
}
use bilbycast_gateway_sdk.Json.{Json}
use bilbycast_gateway_sdk.WsClient.Commands.{Session, fresh, Event, Output, by_phase, step, run}
use bilbycast_gateway_sdk.WsClient.Commands.Trace.{
  queued_in, started_in, finished_in, let_go_in, in_progress, queued_in-append, started_in-append,
  finished_in-append, let_go_in-append,
}
use bilbycast_gateway_sdk.WsClient.Commands.Steps.{
  IsQuiet, Follows, by_phase-IsQuiet, by_phase-Follows, by_phase-let_go,
}

module _ {ℓ} {A : Type ℓ} where
  -- Two stretches of a first-in first-out queue, one after the other.
  splice :
      (w qa qb sa w1 r : List A) → w ++ qa ≡ sa ++ w1 → w1 ++ qb ≡ r → w ++ (qa ++ qb) ≡ sa ++ r
  splice w qa qb sa w1 r e e' =
      sym (append_assoc w qa qb) ∙ ap (λ x. x ++ qb) e ∙ append_assoc sa w1 qb ∙ ap (◌++◌ sa) e'

module _ (j : Json) where
  IsQuiet-trans :
      (s s' s'' : Session) (a b : List (Output j))
      → IsQuiet j s s' a
      → IsQuiet j s' s'' b
      → IsQuiet j s s'' (a ++ b)
  IsQuiet-trans s s' s'' a b p q = record {
    over = q.over;
    waiting = q.waiting ∙ p.waiting;
    none_queued = queued_in-append j a b ∙ ap₂ ◌++◌ p.none_queued q.none_queued;
    none_started = started_in-append j a b ∙ ap₂ ◌++◌ p.none_started q.none_started;
    none_let_go = let_go_in-append j a b ∙ ap₂ ◌++◌ p.none_let_go q.none_let_go;
    runs =
        p.runs
        ∙ ap (◌++◌ (finished_in a)) q.runs
        ∙ sym (append_assoc (finished_in a) _ _)
        ∙ ap (λ x. x ++ in_progress s''.phase) (sym (finished_in-append j a b));
  }

  run-IsQuiet :
      (s : Session) (es : List (Event j))
      → s.over ≡ true
      → IsQuiet j s (run j s es).0 (run j s es).1
  unfolding run step
  run-IsQuiet s [] h = record {
    over = h;
    waiting = refl;
    none_queued = refl;
    none_started = refl;
    none_let_go = refl;
    runs = refl;
  }
  run-IsQuiet s (e ∷ es) h =
      let first = by_phase-IsQuiet j s e s.phase h refl in
      let s' = (by_phase j s e s.phase).0 in
      IsQuiet-trans s s' (run j s' es).0 (by_phase j s e s.phase).1 (run j s' es).1 first
        (run-IsQuiet s' es first.over)

  -- The steps before the end of a session.
  Follows-trans :
      (s s' s'' : Session) (a b : List (Output j))
      → Follows j s s' a
      → let_go_in a ≡ []
      → Follows j s' s'' b
      → Follows j s s'' (a ++ b)
  Follows-trans s s' s'' a b p none_gone q = record {
    commands =
        rw (queued_in-append j a b, started_in-append j a b, let_go_in-append j a b, none_gone)
          (splice s.queue.waiting (queued_in a) (queued_in b) (started_in a) s'.queue.waiting _
              (p.commands ∙ rw (none_gone, append-nil) refl) q.commands
            ∙ simp append_assoc);
    runs =
        rw (started_in-append j a b, finished_in-append j a b)
          (splice (in_progress s.phase) (started_in a) (started_in b) (finished_in a)
              (in_progress s'.phase) _ p.runs q.runs
            ∙ simp append_assoc);
  }

  -- The end of a session, and the steps after it.
  Follows-IsQuiet :
      (s s' s'' : Session) (a b : List (Output j))
      → Follows j s s' a
      → IsQuiet j s' s'' b
      → Follows j s s'' (a ++ b)
  Follows-IsQuiet s s' s'' a b p q = record {
    commands =
        rw (queued_in-append j a b, started_in-append j a b, let_go_in-append j a b)
          (rw (q.none_queued, q.none_started, q.none_let_go)
            (simp append-nil
              (p.commands ∙ ap (◌++◌ (started_in a ++ let_go_in a)) (sym q.waiting))));
    runs =
        rw (started_in-append j a b, finished_in-append j a b)
          (splice (in_progress s.phase) (started_in a) (started_in b) (finished_in a)
              (in_progress s'.phase) _ p.runs
              (ap (◌++◌ (in_progress s'.phase)) q.none_started ∙ append-nil _ ∙ q.runs)
            ∙ simp append_assoc);
  }

  run-Follows :
      (s : Session) (es : List (Event j))
      → s.over ≡ false
      → Follows j s (run j s es).0 (run j s es).1
  unfolding run step
  run-Follows s [] h = record { commands = append-nil s.queue.waiting; runs = append-nil _ }
  run-Follows s (e ∷ es) h =
      let s' = (by_phase j s e s.phase).0 in
      let first = by_phase-Follows j s e s.phase h refl in
      elim (by_phase-let_go j s e s.phase h) [
        | inl (gone, h') ↦
            Follows-trans s s' (run j s' es).0 (by_phase j s e s.phase).1 (run j s' es).1 first gone
              (run-Follows s' es h')
        | inr h' ↦
            Follows-IsQuiet s s' (run j s' es).0 (by_phase j s e s.phase).1 (run j s' es).1 first
              (run-IsQuiet s' es h')
      ]

-- However the frames, the worker's steps and the end of the session fall, commands start in the order
-- in which they were queued; those that were queued and never started are let go of at the end, or
-- still wait; and each one that started has finished, but for the one in progress, so that there is
-- never more than one. None is lost and none runs twice.
pub run-Follows_fresh :
    (j : Json) (es : List (Event j))
    → let (s, out) = run j fresh es in
      (queued_in out ≡ started_in out ++ let_go_in out ++ s.queue.waiting)
      × (started_in out ≡ finished_in out ++ in_progress s.phase)
run-Follows_fresh j es = let f = run-Follows j fresh es refl in (f.commands, f.runs)

-- Once its session is over, a worker starts no further command, whatever happens; the command that
-- was running is the only one that can still finish.
pub run-over :
    (j : Json) (s : Session) (es : List (Event j))
    → s.over ≡ true
    → (started_in (run j s es).1 ≡ [])
      × (in_progress s.phase ≡ finished_in (run j s es).1 ++ in_progress (run j s es).0.phase)
run-over j s es h = let q = run-IsQuiet j s es h in (q.none_started, q.runs)
