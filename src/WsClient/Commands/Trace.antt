-- ===== src/WsClient/Commands/Trace.antt =====
-- What can be seen of a session (src/ws_client.rs): the commands it queues, starts, finishes and
-- lets go of, read off its outputs.
use mathlib.Core.List.{append_assoc}
use bilbycast_gateway_sdk.Base.{◌≡◌, refl, sym, ap, ◌∙◌, List, [], ◌∷◌, ◌++◌}
use bilbycast_gateway_sdk.Json.{Json}
use bilbycast_gateway_sdk.WsClient.Inbound.{QueuedCommand, Routed, dropped, queued, reply, failed}
use bilbycast_gateway_sdk.WsClient.Commands.{
  Phase, waiting_for_turn, idle, stopped, running, Output, routed, started, finished, let_go,
}

abbrev pub queued_by : Routed → List QueuedCommand
queued_by dropped = []
queued_by (queued c) = c ∷ []
queued_by (reply t) = []
queued_by (failed e) = []

module _ {j : Json} where
  -- The commands that a run queues, starts, lets go of unstarted, and finishes, each in order.
  abbrev pub queued_in : List (Output j) → List QueuedCommand
  queued_in [] = []
  queued_in (routed r ∷ out) = queued_by r ++ queued_in out
  queued_in (started c ∷ out) = queued_in out
  queued_in (finished c fs ∷ out) = queued_in out
  queued_in (let_go cs ∷ out) = queued_in out

  abbrev pub started_in : List (Output j) → List QueuedCommand
  started_in [] = []
  started_in (routed r ∷ out) = started_in out
  started_in (started c ∷ out) = c ∷ started_in out
  started_in (finished c fs ∷ out) = started_in out
  started_in (let_go cs ∷ out) = started_in out

  abbrev pub finished_in : List (Output j) → List QueuedCommand
  finished_in [] = []
  finished_in (routed r ∷ out) = finished_in out
  finished_in (started c ∷ out) = finished_in out
  finished_in (finished c fs ∷ out) = c ∷ finished_in out
  finished_in (let_go cs ∷ out) = finished_in out

  abbrev pub let_go_in : List (Output j) → List QueuedCommand
  let_go_in [] = []
  let_go_in (routed r ∷ out) = let_go_in out
  let_go_in (started c ∷ out) = let_go_in out
  let_go_in (finished c fs ∷ out) = let_go_in out
  let_go_in (let_go cs ∷ out) = cs ++ let_go_in out

abbrev pub in_progress : Phase → List QueuedCommand
in_progress (running c) = c ∷ []
in_progress waiting_for_turn = []
in_progress idle = []
in_progress stopped = []

module _ (j : Json) where
  pub queued_in-append : (a b : List (Output j)) → queued_in (a ++ b) ≡ queued_in a ++ queued_in b
  queued_in-append [] b = refl
  queued_in-append (routed r ∷ a) b =
      ap (◌++◌ (queued_by r)) (queued_in-append a b) ∙ sym (append_assoc (queued_by r) _ _)
  queued_in-append (started c ∷ a) b = queued_in-append a b
  queued_in-append (finished c fs ∷ a) b = queued_in-append a b
  queued_in-append (let_go cs ∷ a) b = queued_in-append a b

  pub started_in-append :
      (a b : List (Output j)) → started_in (a ++ b) ≡ started_in a ++ started_in b
  started_in-append [] b = refl
  started_in-append (routed r ∷ a) b = started_in-append a b
  started_in-append (started c ∷ a) b = ap (◌∷◌ c) (started_in-append a b)
  started_in-append (finished c fs ∷ a) b = started_in-append a b
  started_in-append (let_go cs ∷ a) b = started_in-append a b

  pub finished_in-append :
      (a b : List (Output j)) → finished_in (a ++ b) ≡ finished_in a ++ finished_in b
  finished_in-append [] b = refl
  finished_in-append (routed r ∷ a) b = finished_in-append a b
  finished_in-append (started c ∷ a) b = finished_in-append a b
  finished_in-append (finished c fs ∷ a) b = ap (◌∷◌ c) (finished_in-append a b)
  finished_in-append (let_go cs ∷ a) b = finished_in-append a b

  pub let_go_in-append : (a b : List (Output j)) → let_go_in (a ++ b) ≡ let_go_in a ++ let_go_in b
  let_go_in-append [] b = refl
  let_go_in-append (routed r ∷ a) b = let_go_in-append a b
  let_go_in-append (started c ∷ a) b = let_go_in-append a b
  let_go_in-append (finished c fs ∷ a) b = let_go_in-append a b
  let_go_in-append (let_go cs ∷ a) b =
      ap (◌++◌ cs) (let_go_in-append a b) ∙ sym (append_assoc cs _ _)
