-- ===== src/WsClient/SessionLoop/Trace.antt =====
-- src/ws_client.rs, `run_session`: an unbounded queue, as what a session's reader and its loop implement
-- together: the reader puts what it read, the loop gets it.
use mathlib.Core.List.{append-nil, append_assoc}
use bilbycast_gateway_sdk.Base.{◌≡◌, refl, sym, ap, subst, map, ◌∙◌, List, [], ◌∷◌, ◌++◌}
use bilbycast_gateway_sdk.WsClient.SessionLoop.{
  Incoming, text_frame, close_frame, read_error, stream_end, Inbound, text, ping, closed, failed,
  ended, ReaderPhase, reading, parked, acquiring, sending, Link, Output, read, took,
}

-- What the loop has to be told of a frame: a text or an end. A ping is answered as there is room.
abbrev pub due : Incoming → List Incoming
due (text_frame t) = text_frame t ∷ []
due (close_frame f) = close_frame f ∷ []
due (read_error e) = read_error e ∷ []
due stream_end = stream_end ∷ []
due _ = []

abbrev pub told_of : Inbound → List Incoming
told_of (text t held) = text_frame t ∷ []
told_of (ping data') = []
told_of (closed f) = close_frame f ∷ []
told_of (failed e) = read_error e ∷ []
told_of ended = stream_end ∷ []

abbrev pub waits : List Inbound → List Incoming
waits [] = []
waits (i ∷ is) = told_of i ++ waits is

abbrev pub in_hand : ReaderPhase → List Incoming
in_hand reading = []
in_hand parked = []
in_hand (acquiring t) = text_frame t ∷ []
in_hand (sending i) = told_of i

-- What has been read and the loop has not taken.
abbrev pub pending : Link → List Incoming
pending s = waits s.channel ++ in_hand s.reader

pub waits-append : (a b : List Inbound) → waits (a ++ b) ≡ waits a ++ waits b
waits-append [] b = refl
waits-append (i ∷ a) b =
    ap (◌++◌ (told_of i)) (waits-append a b) ∙ sym (append_assoc (told_of i) (waits a) (waits b))

-- The operations of a queue, and what they make of one.
pub data QueueOp : Type 0 where
  put get : Incoming → QueueOp

pub data Queued : List Incoming → List QueueOp → List Incoming → Type 0 where
  done : {q : List Incoming} → Queued q [] q
  puts :
      {q r : List Incoming} {x : Incoming} {ops : List QueueOp}
      → Queued (q ++ x ∷ []) ops r
      → Queued q (put x ∷ ops) r
  gets :
      {q r : List Incoming} {x : Incoming} {ops : List QueueOp}
      → Queued q ops r
      → Queued (x ∷ q) (get x ∷ ops) r

-- What a session does to the queue, of all that can be seen of it.
abbrev pub queue_ops : List Output → List QueueOp
queue_ops [] = []
queue_ops (read f ∷ os) = map put (due f) ++ queue_ops os
queue_ops (took i ∷ os) = map get (told_of i) ++ queue_ops os
queue_ops (_ ∷ os) = queue_ops os

abbrev pub all_put : List QueueOp → List Incoming
all_put [] = []
all_put (put x ∷ ops) = x ∷ all_put ops
all_put (get x ∷ ops) = all_put ops

abbrev pub all_got : List QueueOp → List Incoming
all_got [] = []
all_got (put x ∷ ops) = all_got ops
all_got (get x ∷ ops) = x ∷ all_got ops

pub queue_ops-append : (a b : List Output) → queue_ops (a ++ b) ≡ queue_ops a ++ queue_ops b
queue_ops-append [] b = refl
queue_ops-append (read f ∷ a) b =
    ap (◌++◌ (map put (due f))) (queue_ops-append a b)
    ∙ sym (append_assoc (map put (due f)) (queue_ops a) (queue_ops b))
queue_ops-append (took i ∷ a) b =
    ap (◌++◌ (map get (told_of i))) (queue_ops-append a b)
    ∙ sym (append_assoc (map get (told_of i)) (queue_ops a) (queue_ops b))
queue_ops-append (_ ∷ a) b = queue_ops-append a b

pub Queued-trans :
    {p q r : List Incoming} {a b : List QueueOp} → Queued p a q → Queued q b r → Queued p (a ++ b) r
Queued-trans done h = h
Queued-trans (puts g) h = puts (Queued-trans g h)
Queued-trans (gets g) h = gets (Queued-trans g h)

pub Queued-puts : (q xs : List Incoming) → Queued q (map put xs) (q ++ xs)
Queued-puts q [] = subst (Queued q []) (sym (append-nil q)) done
Queued-puts q (x ∷ xs) = puts (
    subst (Queued (q ++ x ∷ []) (map put xs)) (append_assoc q (x ∷ []) xs)
      (Queued-puts (q ++ x ∷ []) xs))

pub Queued-gets : (q xs : List Incoming) → Queued (xs ++ q) (map get xs) q
Queued-gets q [] = done
Queued-gets q (x ∷ xs) = gets (Queued-gets q xs)

-- Such a queue is first in, first out.
pub Queued-order :
    {q r : List Incoming} {ops : List QueueOp}
    → Queued q ops r
    → q ++ all_put ops ≡ all_got ops ++ r
Queued-order (done {q}) = append-nil q
Queued-order (puts {q} {r} {x} {ops} h) =
    sym (append_assoc q (x ∷ []) (all_put ops)) ∙ Queued-order h
Queued-order (gets {q} {r} {x} h) = ap (◌∷◌ x) (Queued-order h)
