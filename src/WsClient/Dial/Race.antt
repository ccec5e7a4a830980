-- ===== src/WsClient/Dial/Race.antt =====
-- src/ws_client.rs, `connect_staggered`: the dial fails only when every address has.
use bilbycast_gateway_sdk.Base.{
  sym, ℕ, suc, ◌+◌, ◌≡◌, refl, ap, ◌∙◌, true, false, Option, none, some, List, [], ◌∷◌, ◌++◌, arith,
  length, length-append, get_elem?, inl, inr, Bool-cases, Option-cases, ok, err, ◌⊎◌,
}
use bilbycast_gateway_sdk.WsClient.Dial.{
  Attempts, DialEvent, ends, stagger, all_failed, address_of, without, is_nil, start_next, race_of,
  give_up, on_end, select, connect_staggered,
}
use bilbycast_gateway_sdk.WsClient.Dial.InFlight.{Inc, Inc-append, Inc-without, length-without}

module _ {Stream IoError : Type 0} where
  -- The errors of the attempts, in the order in which they end.
  abbrev pub errors : List (DialEvent Stream IoError) → List IoError
  errors [] = []
  errors (stagger ∷ es) = errors es
  errors (ends n (ok x) ∷ es) = errors es
  errors (ends n (err e) ∷ es) = e ∷ errors es

pub is_nil-append : {A : Type 0} (xs : List A) (y : A) → is_nil (xs ++ y ∷ []) ≡ false
is_nil-append [] y = refl
is_nil-append (x ∷ xs) y = refl

is_nil-length : {A : Type 0} (xs : List A) → is_nil xs ≡ true → length xs ≡ 0
is_nil-length [] h = refl
is_nil-length (x ∷ xs) h = cc

module _ {Addr IoError : Type 0} where
  -- The addresses that have not failed.
  abbrev left : Attempts Addr IoError → ℕ
  left s = length s.waiting + length s.in_flight

  record Starts (s t : Attempts Addr IoError) : Type 0 where
    ordered : Inc t.in_flight t.started
    all_left : left t ≡ left s
    same_err : t.last_err ≡ s.last_err

  start_next-Starts :
      (s : Attempts Addr IoError) (w : List Addr)
      → s.waiting ≡ w
      → Inc s.in_flight s.started
      → Starts s (start_next s w)
  unfolding start_next
  start_next-Starts s [] e v = record { ordered = v; all_left = refl; same_err = refl }
  start_next-Starts s (a ∷ w) e v = record {
    ordered = Inc-append s.in_flight s.started a v;
    all_left = omega (arith, length-append s.in_flight ((s.started, a) ∷ []), ap length e);
    same_err = refl;
  }

  start_next-idle :
      (s : Attempts Addr IoError) (w : List Addr)
      → s.waiting ≡ w
      → is_nil (start_next s w).in_flight ≡ true
      → left s ≡ 0
  unfolding start_next
  start_next-idle s [] e h = omega (arith, ap length e, is_nil-length s.in_flight h)
  start_next-idle s (a ∷ w) e h =
      absurd (ground (arith, h, is_nil-append s.in_flight (s.started, a)))

  abbrev failed : Attempts Addr IoError → ℕ → IoError → Attempts Addr IoError
  failed t seq d = record t { in_flight = without seq t.in_flight; last_err = some d }

module _ {Addr Stream IoError : Type 0} where
  give_up-all_failed :
      (o : Option IoError) (e : IoError)
      → give_up {Addr = Addr} {Stream = Stream} o ≡ all_failed e
      → o ≡ some e
  unfolding give_up
  give_up-all_failed none e h = ground arith
  give_up-all_failed (some d) e h = cc

  -- When the dial gives up with an error: nothing was left, or what was left has failed.
  abbrev AllFail : Attempts Addr IoError → List (DialEvent Stream IoError) → IoError → Type 0
  AllFail s es e =
      ((left s ≡ 0) × (s.last_err ≡ some e))
      ⊎ ((m : ℕ) × (left s ≡ suc m) × (get_elem? (errors es) m ≡ some e))

  gives_up :
      (s : Attempts Addr IoError) (es es' : List (DialEvent Stream IoError)) (e : IoError)
      → Inc s.in_flight s.started
      → is_nil (start_next s s.waiting).in_flight ≡ true
      → give_up {Addr = Addr} {Stream = Stream} (start_next s s.waiting).last_err ≡ all_failed e
      → AllFail s es e
  gives_up s es es' e v n h = inl (
    start_next-idle s s.waiting refl n,
    sym (start_next-Starts s s.waiting refl v).same_err
        ∙ give_up-all_failed (start_next s s.waiting).last_err e h,
  )

  AllFail-of_Starts :
      (s t : Attempts Addr IoError) (es : List (DialEvent Stream IoError)) (e : IoError)
      → Starts s t
      → AllFail t es e
      → AllFail s es e
  AllFail-of_Starts s t es e facts (inl p) =
      inl (omega (arith, facts.all_left, p.0), sym facts.same_err ∙ p.1)
  AllFail-of_Starts s t es e facts (inr q) = inr (q.0, omega (arith, facts.all_left, q.1), q.2)

  AllFail-failed :
      (t : Attempts Addr IoError) (seq : ℕ) (d : IoError) (es : List (DialEvent Stream IoError))
      (e : IoError) (a : Addr)
      → Inc t.in_flight t.started
      → address_of seq t.in_flight ≡ some a
      → AllFail (failed t seq d) es e
      → AllFail t (ends seq (err d) ∷ es) e
  AllFail-failed t seq d es e a v found (inl p) =
      inr (0, omega (arith, length-without seq t.in_flight t.started a v found, p.0), p.1)
  AllFail-failed t seq d es e a v found (inr q) =
      inr (suc q.0, omega (arith, length-without seq t.in_flight t.started a v found, q.1), q.2)

  select_stagger :
      (t : Attempts Addr IoError) (es : List (DialEvent Stream IoError)) (e : IoError)
      → select t stagger (λ u. connect_staggered u es) ≡ all_failed e
      → connect_staggered t es ≡ all_failed e
  unfolding select
  select_stagger t es e h = ground (arith, h)

  select_ok :
      (t : Attempts Addr IoError) (seq : ℕ) (x : Stream) (es : List (DialEvent Stream IoError))
      (e : IoError)
      → select t (ends seq (ok x)) (λ u. connect_staggered u es) ≡ all_failed e
      → ⊥
  unfolding select on_end
  select_ok t seq x es e h = elim (Option-cases (address_of seq t.in_flight)) [
    | inl q ↦ ground (arith, q, h)
    | inr q ↦ ground (arith, q.1, h)
  ]

  select_err :
      (t : Attempts Addr IoError) (seq : ℕ) (d : IoError) (es : List (DialEvent Stream IoError))
      (e : IoError)
      → select t (ends seq (err d)) (λ u. connect_staggered u es) ≡ all_failed e
      → (a : Addr) × (address_of seq t.in_flight ≡ some a)
        × (connect_staggered (failed t seq d) es ≡ all_failed e)
  unfolding select on_end
  select_err t seq d es e h = elim (Option-cases (address_of seq t.in_flight)) [
    | inl q ↦ absurd (ground (arith, q, h))
    | inr q ↦ (q.0, q.1, ground (arith, q.1, h))
  ]

  all_failed-AllFail :
      (es : List (DialEvent Stream IoError)) (s : Attempts Addr IoError) (e : IoError)
      → Inc s.in_flight s.started
      → connect_staggered s es ≡ all_failed e
      → AllFail s es e
  unfolding connect_staggered
  all_failed-AllFail [] s e v h = elim (Bool-cases (is_nil (start_next s s.waiting).in_flight)) [
    | inl n ↦ gives_up s [] [] e v n (ground (arith, n, h))
    | inr n ↦ absurd (ground (arith, n, h))
  ]
  all_failed-AllFail (stagger ∷ es) s e v h =
      let t = start_next s s.waiting in
      let facts = start_next-Starts s s.waiting refl v in
      elim (Bool-cases (is_nil t.in_flight)) [
        | inl n ↦ gives_up s (stagger ∷ es) [] e v n (ground (arith, n, h))
        | inr n ↦
            let on : select t stagger (λ u. connect_staggered u es) ≡ all_failed e =
              ground (arith, n, h) in
            AllFail-of_Starts s t es e facts
              (all_failed-AllFail es t e facts.ordered (select_stagger t es e on))
      ]
  all_failed-AllFail (ends seq (ok x) ∷ es) s e v h =
      let t = start_next s s.waiting in
      elim (Bool-cases (is_nil t.in_flight)) [
        | inl n ↦ gives_up s (ends seq (ok x) ∷ es) [] e v n (ground (arith, n, h))
        | inr n ↦
            let on : select t (ends seq (ok x)) (λ u. connect_staggered u es) ≡ all_failed e =
              ground (arith, n, h) in
            absurd (select_ok t seq x es e on)
      ]
  all_failed-AllFail (ends seq (err d) ∷ es) s e v h =
      let t = start_next s s.waiting in
      let facts = start_next-Starts s s.waiting refl v in
      elim (Bool-cases (is_nil t.in_flight)) [
        | inl n ↦ gives_up s (ends seq (err d) ∷ es) [] e v n (ground (arith, n, h))
        | inr n ↦
            let on : select t (ends seq (err d)) (λ u. connect_staggered u es) ≡ all_failed e =
              ground (arith, n, h) in
            let (a, found, go_on) = select_err t seq d es e on in
            AllFail-of_Starts s t (ends seq (err d) ∷ es) e facts (
              AllFail-failed t seq d es e a facts.ordered found (
                all_failed-AllFail es (failed t seq d) e
                  (Inc-without seq t.in_flight t.started facts.ordered) go_on))
      ]

-- The dial of some addresses ends in an error only when every one of them has failed: the error is
-- that of the last to fail.
pub connect_staggered-all_failed :
    {Addr Stream IoError : Type 0} (first : Addr) (addrs : List Addr)
    (es : List (DialEvent Stream IoError)) (e : IoError)
    → connect_staggered (race_of (first ∷ addrs)) es ≡ all_failed e
    → get_elem? (errors es) (length addrs) ≡ some e
unfolding Inc
connect_staggered-all_failed first addrs es e h =
    elim (all_failed-AllFail es (race_of (first ∷ addrs)) e tt h) [
      | inl p ↦ absurd (omega (arith, p.0))
      | inr q ↦ ap (get_elem? (errors es)) (omega (arith, q.1)) ∙ q.2
    ]
