-- ===== src/WsClient/SessionLoop/Shares.antt =====
-- src/ws_client.rs, `read_manager`: the shares of the inbound budget, and what the reader does to them.
use bilbycast_gateway_sdk.Base.{
  ℕ, ◌+◌, ◌≤◌, String, len, ◌≡◌, refl, ap, subst, ◌⊎◌, inl, inr, true, List, [], ◌∷◌, ◌++◌, arith,
  Bool-cases, Option-cases, length, length-append, ltb, leb, All, All-append,
}
use bilbycast_gateway_sdk.WsClient.Cadence.{dead_for}
use bilbycast_gateway_sdk.WsClient.Inbound.{u32_cost}
use bilbycast_gateway_sdk.WsClient.Reconnect.{ConnectionResult, shutdown_requested}
use bilbycast_gateway_sdk.WsClient.SessionLoop.{
  Incoming, ping_frame, text_frame, close_frame, read_error, stream_end, Inbound, text, ping,
  ReaderPhase, reading, acquiring, sending, LoopPhase, writing, Link, finish, offer_ping, take_in,
  reads_frame, acquire, after_handover, hand_over, check_silence, is_over, inbound_channel_size,
  inbound_budget_bytes,
}

abbrev pub share : Inbound → ℕ
share (text t held) = held
share _ = 0

abbrev pub shares : List Inbound → ℕ
shares [] = 0
shares (i ∷ is) = share i + shares is

abbrev pub reader_share : ReaderPhase → ℕ
reader_share (sending i) = share i
reader_share _ = 0

abbrev pub loop_share : LoopPhase → ℕ
loop_share (writing what held) = held
loop_share _ = 0

-- The bytes of the texts that wait.
abbrev pub text_bytes : List Inbound → ℕ
text_bytes [] = 0
text_bytes (text t held ∷ is) = len t + text_bytes is
text_bytes (_ ∷ is) = text_bytes is

abbrev pub Priced : Inbound → Type 0
Priced (text t held) = held ≡ u32_cost (len t)
Priced _ = Unit

abbrev pub ReaderPriced : ReaderPhase → Type 0
ReaderPriced (sending i) = Priced i
ReaderPriced _ = Unit

-- The budget and the shares handed out of it.
abbrev pub granted : Link → ℕ
granted s = s.budget + shares s.channel + reader_share s.reader + loop_share s.loop

pub record IsBounded (s : Link) : Type 0 where
  pub within : granted s ≤ inbound_budget_bytes
  pub whole : (is_over s.loop ≡ true) ⊎ (granted s ≡ inbound_budget_bytes)
  pub few : length s.channel ≤ inbound_channel_size
  pub priced : All Priced s.channel
  pub reader_priced : ReaderPriced s.reader

pub shares-append : (a b : List Inbound) → shares (a ++ b) ≡ shares a + shares b
shares-append [] b = omega arith
shares-append (i ∷ a) b = omega (arith, shares-append a b)

pub finish-IsBounded : (s : Link) (r : ConnectionResult) → IsBounded s → IsBounded (finish s r).0
unfolding finish
finish-IsBounded s shutdown_requested v = record {
  within = omega (arith, v.within);
  whole = inl refl;
  few = v.few;
  priced = v.priced;
  reader_priced = v.reader_priced;
}
finish-IsBounded s _ v = record {
  within = omega (arith, v.within);
  whole = inl refl;
  few = v.few;
  priced = v.priced;
  reader_priced = v.reader_priced;
}

pub bounded :
    (s : Link)
    → granted s ≡ inbound_budget_bytes
    → length s.channel ≤ inbound_channel_size
    → All Priced s.channel
    → ReaderPriced s.reader
    → IsBounded s
bounded s full few priced reader_priced = record {
  within = omega (arith, full);
  whole = inr full;
  few = few;
  priced = priced;
  reader_priced = reader_priced;
}

pub take_in-IsBounded :
    (s : Link) (now : ℕ) (f : Incoming)
    → s.reader ≡ reading
    → granted s ≡ inbound_budget_bytes
    → IsBounded s
    → IsBounded (take_in s now f)
unfolding take_in offer_ping
take_in-IsBounded s now (ping_frame b) e full v =
    elim (Bool-cases (ltb (length s.channel) inbound_channel_size)) [
      | inl h ↦
          rw (h, take_in, offer_ping)
            (bounded _ (omega (arith, shares-append s.channel (ping b ∷ []), full))
              (ground (arith, length-append s.channel (ping b ∷ []), h))
              (All-append Priced s.channel (ping b ∷ []) v.priced (tt, tt)) v.reader_priced)
      | inr h ↦ rw (h, take_in, offer_ping) (bounded _ full v.few v.priced v.reader_priced)
    ]
take_in-IsBounded s now (text_frame t) e full v =
    bounded _ (omega (arith, ap reader_share e, full)) v.few v.priced tt
take_in-IsBounded s now (close_frame f) e full v =
    bounded _ (omega (arith, ap reader_share e, full)) v.few v.priced tt
take_in-IsBounded s now (read_error x) e full v =
    bounded _ (omega (arith, ap reader_share e, full)) v.few v.priced tt
take_in-IsBounded s now stream_end e full v =
    bounded _ (omega (arith, ap reader_share e, full)) v.few v.priced tt
take_in-IsBounded s now _ e full v = bounded _ full v.few v.priced v.reader_priced

pub reads_frame-IsBounded :
    (s : Link) (now : ℕ) (f : Incoming) (p : ReaderPhase)
    → s.reader ≡ p
    → granted s ≡ inbound_budget_bytes
    → IsBounded s
    → IsBounded (reads_frame s now f p).0
unfolding reads_frame
reads_frame-IsBounded s now f reading e full v = take_in-IsBounded s now f e full v
reads_frame-IsBounded s now f _ e full v = v

pub acquire-IsBounded :
    (s : Link) (p : ReaderPhase)
    → s.reader ≡ p
    → granted s ≡ inbound_budget_bytes
    → IsBounded s
    → IsBounded (acquire s p)
unfolding acquire
acquire-IsBounded s (acquiring t) e full v = elim (Bool-cases (leb (u32_cost (len t)) s.budget)) [
  | inl h ↦
      rw (h, acquire) (bounded _ (ground (arith, ap reader_share e, full, h)) v.few v.priced refl)
  | inr h ↦ rw (h, acquire) v
]
acquire-IsBounded s _ e full v = v

pub after_handover-IsBounded :
    (s : Link) (now : ℕ) (i : Inbound)
    → granted s ≡ inbound_budget_bytes + reader_share s.reader
    → length s.channel ≤ inbound_channel_size
    → All Priced s.channel
    → IsBounded (after_handover s now i)
unfolding after_handover
after_handover-IsBounded s now (text t held) full few priced =
    bounded _ (omega (arith, full)) few priced tt
after_handover-IsBounded s now _ full few priced = bounded _ (omega (arith, full)) few priced tt

pub hand_over-IsBounded :
    (s : Link) (now : ℕ) (p : ReaderPhase)
    → s.reader ≡ p
    → granted s ≡ inbound_budget_bytes
    → IsBounded s
    → IsBounded (hand_over s now p)
unfolding hand_over
hand_over-IsBounded s now (sending i) e full v =
    let s' = record s { channel = s.channel ++ i ∷ [] } in
    let price : Priced i = subst ReaderPriced e v.reader_priced in
    elim (Bool-cases (ltb (length s.channel) inbound_channel_size)) [
      | inl h ↦
          rw (h, hand_over)
            (after_handover-IsBounded s' now i
              (omega (arith, ap reader_share e, shares-append s.channel (i ∷ []), full))
              (ground (arith, length-append s.channel (i ∷ []), h))
              (All-append Priced s.channel (i ∷ []) v.priced (price, tt)))
      | inr h ↦ rw (h, hand_over) v
    ]
hand_over-IsBounded s now _ e full v = v

pub check_silence-IsBounded :
    (digits : ℕ → String) (s : Link) (now : ℕ) (p : ReaderPhase)
    → IsBounded s
    → IsBounded (check_silence digits s now p).0
unfolding check_silence
check_silence-IsBounded digits s now reading v = elim (Option-cases (dead_for s.cadence now)) [
  | inl e ↦ rw (e, check_silence) v
  | inr h ↦ rw (h.1, check_silence) (finish-IsBounded s _ v)
]
check_silence-IsBounded digits s now _ v = v
