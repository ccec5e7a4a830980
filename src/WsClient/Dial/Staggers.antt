-- ===== src/WsClient/Dial/Staggers.antt =====
-- src/ws_client.rs, `connect_staggered`: a silent address holds no other back.
use mathlib.Core.List.{append_assoc, map-append}
use bilbycast_gateway_sdk.Base.{
  ℕ, zero, suc, ◌<◌, ◌≡◌, refl, ap, ◌∙◌, List, [], ◌∷◌, ◌++◌, map, arith, length, take, drop,
}
use bilbycast_gateway_sdk.WsClient.Dial.{
  Attempts, DialEvent, stagger, racing, start_next, race_of, select, connect_staggered,
}
use bilbycast_gateway_sdk.WsClient.Dial.Race.{is_nil-append}

module _ {Stream IoError : Type 0} where
  abbrev pub staggers : ℕ → List (DialEvent Stream IoError)
  staggers zero = []
  staggers (suc n) = stagger ∷ staggers n

abbrev pub addresses : {Addr : Type 0} → List (ℕ × Addr) → List Addr
addresses fl = map (λ x. x.1) fl

module _ {Addr Stream IoError : Type 0} where
  staggered :
      (n : ℕ) (s : Attempts Addr IoError) (w : List Addr)
      → s.waiting ≡ w
      → n < length w
      → (t : Attempts Addr IoError) × (connect_staggered {Stream = Stream} s (staggers n)
          ≡ racing t)
        × (addresses t.in_flight ≡ addresses s.in_flight ++ take (suc n) w)
        × (t.waiting ≡ drop (suc n) w)
  unfolding connect_staggered start_next select
  staggered n s [] e h = absurd (omega arith)
  staggered zero s (a ∷ w) e h = (
    start_next s (a ∷ w),
    simp (e, is_nil-append s.in_flight (s.started, a)) refl,
    map-append (λ x. x.1) s.in_flight ((s.started, a) ∷ []),
    refl,
  )
  staggered (suc n) s (a ∷ []) e h = absurd (omega arith)
  staggered (suc n) s (a ∷ b ∷ w) e h =
      let next = start_next s (a ∷ b ∷ w) in
      let (t, runs, flies, waits) = staggered n next (b ∷ w) refl (omega arith) in
      (
        t,
        simp (e, is_nil-append s.in_flight (s.started, a)) runs,
        flies
            ∙ ap (λ l. l ++ take (suc n) (b ∷ w))
                (map-append (λ x. x.1) s.in_flight ((s.started, a) ∷ []))
            ∙ append_assoc (addresses s.in_flight) (a ∷ []) (take (suc n) (b ∷ w)),
        waits,
      )

-- Where no attempt answers, every stagger starts the next address: after `n` of them, the first
-- `n + 1` addresses are being tried, in order, and the others wait.
pub connect_staggered-staggers :
    {Addr Stream IoError : Type 0} (addrs : List Addr) (n : ℕ)
    → n < length addrs
    → (t : Attempts Addr IoError) × (connect_staggered {Stream = Stream}
          (race_of addrs)
          (staggers n)
        ≡ racing t)
      × (addresses t.in_flight ≡ take (suc n) addrs)
      × (t.waiting ≡ drop (suc n) addrs)
connect_staggered-staggers addrs n h = staggered n (race_of addrs) addrs refl h
