-- ===== src/WsClient/Cadence/Median.antt =====
-- src/ws_client.rs, `InboundCadence::silence_limit`: the limit follows the median ping gap.
use bilbycast_gateway_sdk.Base.{
  ℕ, ◌*◌, ◌/◌, ◌≤◌, ◌<◌, max, ◌≡◌, refl, ◌↔◌, ◌⊎◌, inl, inr, none, some, List, [], ◌∷◌, arith,
  length, length-append, length-drop, get_elem?, get_elem?-of_lt, drop, count_if, All, All-append,
  All-drop, All-get_elem?, Bool-cases, ◌==◌, ap, is_some, true, false,
}
use bilbycast_gateway_sdk.Sort.{sort, at_most, get_elem?-sort-le, length-sort, sort-All}
use bilbycast_gateway_sdk.WsClient.Cadence.{
  InboundCadence, new, on_frame, on_ping, hear, listen, Heard, ping, frame, silence_limit, heard,
  secs, silence_floor, ping_gaps_kept, max_ping_gap, push_gap, ping_gap,
}

-- What holds of the cadence of any session.
pub record IsWellFormed (c : InboundCadence) : Type 0 where
  pub kept : length c.gaps ≤ ping_gaps_kept
  pub capped : All (λ g. g ≤ max_ping_gap) c.gaps
  pub armed : is_some c.last_ping ≡ true → 0 < length c.gaps
  pub unarmed : is_some c.last_ping ≡ false → c.gaps ≡ []

new-IsWellFormed : (now : ℕ) → IsWellFormed (new now)
unfolding new
new-IsWellFormed now = record {
  kept = omega arith;
  capped = tt;
  armed = λ e. cc;
  unarmed = λ e. refl;
}

record IsGaps (gs : List ℕ) : Type 0 where
  few : length gs ≤ ping_gaps_kept
  some_gap : 0 < length gs
  capped : All (λ g. g ≤ max_ping_gap) gs

push_gap-IsGaps :
    (gs : List ℕ) (g : ℕ)
    → g ≤ max_ping_gap
    → length gs ≤ ping_gaps_kept
    → All (λ x. x ≤ max_ping_gap) gs
    → IsGaps (push_gap gs g)
unfolding push_gap
push_gap-IsGaps gs g h few all = elim (Bool-cases (length gs == ping_gaps_kept)) [
  | inl e ↦ rw e (record {
    few = ground (arith, e, length-append (drop 1 gs) (g ∷ []), length-drop 1 gs);
    some_gap = omega (arith, length-append (drop 1 gs) (g ∷ []));
    capped = All-append _ (drop 1 gs) (g ∷ []) (All-drop _ 1 gs all) (h, tt);
  })
  | inr e ↦ rw e (record {
    few = ground (arith, e, length-append gs (g ∷ []));
    some_gap = omega (arith, length-append gs (g ∷ []));
    capped = All-append _ gs (g ∷ []) all (h, tt);
  })
]

ping_gap-le : (c : InboundCadence) (now : ℕ) → ping_gap c now ≤ max_ping_gap
unfolding ping_gap
ping_gap-le c now = omega arith

hear-IsWellFormed : (c : InboundCadence) (h : ℕ × Heard) → IsWellFormed c → IsWellFormed (hear c h)
unfolding hear on_ping on_frame
hear-IsWellFormed c (now, ping) w =
    let c' = on_frame c now in
    let gs = push_gap-IsGaps c.gaps (ping_gap c' now) (ping_gap-le c' now) w.kept w.capped in
    record { kept = gs.few; capped = gs.capped; armed = λ _. gs.some_gap; unarmed = λ e. cc }
hear-IsWellFormed c (now, frame) w = record {
  kept = w.kept;
  capped = w.capped;
  armed = w.armed;
  unarmed = w.unarmed;
}

listen-IsWellFormed :
    (c : InboundCadence) (hs : List (ℕ × Heard)) → IsWellFormed c → IsWellFormed (listen c hs)
unfolding listen
listen-IsWellFormed c [] w = w
listen-IsWellFormed c (h ∷ hs) w = listen-IsWellFormed (hear c h) hs (hear-IsWellFormed c h w)

pub listen-new-IsWellFormed :
    (start : ℕ) (hs : List (ℕ × Heard)) → IsWellFormed (listen (new start) hs)
listen-new-IsWellFormed start hs = listen-IsWellFormed (new start) hs (new-IsWellFormed start)

median :
    (gs : List ℕ) → 0 < length gs → (m : ℕ) × (get_elem? (sort gs) (length (sort gs) / 2) ≡ some m)
median gs h = get_elem?-of_lt (sort gs) (length (sort gs) / 2) (omega (arith, length-sort gs))

-- The limit, from the upper median of the gaps.
pub limit_of_median :
    (c : InboundCadence)
    → IsWellFormed c
    → 0 < length c.gaps
    → (m : ℕ) × (get_elem? (sort c.gaps) (length c.gaps / 2) ≡ some m)
      × (m ≤ max_ping_gap)
      × (silence_limit c ≡ some (max silence_floor (m * 4)))
unfolding silence_limit
limit_of_median c w h =
    let (m, e) = median c.gaps h in
    let low : m ≤ max_ping_gap =
      All-get_elem? _ (sort c.gaps) (length (sort c.gaps) / 2) (sort-All _ c.gaps w.capped) e in
    (m, rw (← length-sort c.gaps) e, low, rw (e, silence_limit) (ap some (omega arith)))

pub no_gaps : (c : InboundCadence) → c.gaps ≡ [] → silence_limit c ≡ none
unfolding silence_limit sort
no_gaps c e = rw (e, silence_limit)

pub limit_cases : (c : InboundCadence) → (silence_limit c ≡ none) ⊎ (0 < length c.gaps)
limit_cases c = go c.gaps refl
  where
    go : (gs : List ℕ) → c.gaps ≡ gs → (silence_limit c ≡ none) ⊎ (0 < length c.gaps)
    go [] e = inl (no_gaps c e)
    go (g ∷ gs) e = inr (rw e (omega arith))

limit_median :
    (c : InboundCadence) (limit gap : ℕ)
    → IsWellFormed c
    → silence_floor ≤ gap * 4
    → silence_limit c ≡ some limit
    → (silence_floor ≤ limit)
      × (limit ≤ secs 1200)
      × ((limit ≤ gap * 4) ↔ (length c.gaps < 2 * count_if (at_most gap) c.gaps))
limit_median c limit gap w big e = elim (limit_cases c) [
  | inl e' ↦ cc
  | inr h ↦
      let (m, at, low, e') = limit_of_median c w h in
      let eq : limit ≡ max silence_floor (m * 4) = ground (arith, e, e') in
      let split = get_elem?-sort-le gap c.gaps (length c.gaps / 2) at in
      (
        omega arith,
        omega arith,
        (λ l. omega (arith, split.1 (omega arith)), λ l. omega (arith, split.0 (omega arith))),
      )
]

-- The limit of a session lies between the 90 s floor and 20 minutes, and it follows the median of
-- the gaps kept: for a gap of 22.5 s or more, the limit is within four times that gap exactly when
-- more than half of the gaps kept do not exceed it.
pub silence_limit-median :
    (start : ℕ) (hs : List (ℕ × Heard)) (limit gap : ℕ)
    → silence_floor ≤ gap * 4
    → silence_limit (heard start hs) ≡ some limit
    → (silence_floor ≤ limit)
      × (limit ≤ secs 1200)
      × ((limit ≤ gap * 4)
          ↔ (length (heard start hs).gaps < 2 * count_if (at_most gap) (heard start hs).gaps))
silence_limit-median start hs limit gap =
    limit_median (heard start hs) limit gap (listen-new-IsWellFormed start hs)
