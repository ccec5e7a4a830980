-- ===== src/Upgrade/Download/Attempts.antt =====
-- src/upgrade/download.rs: how often a fetch tries, and how long it waits in between.
use bilbycast_gateway_sdk.Base.{
  ℕ, ◌+◌, ◌≤◌, true, ◌≡◌, err≢ok, refl, inl, inr, Option, some, List, [], ◌∷◌, arith, Bool-cases,
  Result, ok, length,
}
use bilbycast_gateway_sdk.Upgrade.Download.{
  Reply, network_error, answered, FetchError, FetchStep, requested, slept, is_success,
  is_retryable_status, backoff, attempt_all, after_reply, http_status, network,
}

abbrev pub requests : List FetchStep → ℕ
requests [] = 0
requests (requested ∷ steps) = 1 + requests steps
requests (slept ms ∷ steps) = requests steps

abbrev pub time_slept : List FetchStep → ℕ
time_slept [] = 0
time_slept (requested ∷ steps) = time_slept steps
time_slept (slept ms ∷ steps) = ms + time_slept steps

-- The sleeps that a loop over these attempts may come to.
abbrev sleeps : List ℕ → ℕ
sleeps [] = 0
sleeps (a ∷ as') = backoff a + sleeps as'

module _ {ℓ} {Body : Type 0} {A : Type ℓ} (read : Body → Result FetchError A)
    (meets : ℕ → Reply Body) where
  -- An attempt that was answered with a success, whose body was read as `x`.
  pub record ReadFrom (x : A) : Type ℓ where
    pub attempt : ℕ
    pub status : ℕ
    pub body : Body
    pub reply : meets attempt ≡ answered status body
    pub success : is_success status ≡ true
    pub reads : read body ≡ ok x

  pub record Tried (as' : List ℕ) (o : Result FetchError A × List FetchStep) : Type ℓ where
    pub few : requests o.1 ≤ length as'
    pub short : time_slept o.1 ≤ sleeps as'
    pub from : (x : A) → o.0 ≡ ok x → ReadFrom x

  after_reply-Tried :
      (a : ℕ) (as' : List ℕ) (rest : FetchError → Result FetchError A × List FetchStep)
      (r : Reply Body)
      → meets a ≡ r
      → ((e : FetchError) → Tried as' (rest e))
      → Tried (a ∷ as') (after_reply read a rest r)
  unfolding after_reply
  after_reply-Tried a as' rest (network_error e) h t =
      let v = t (network e) in
      record { few = omega (arith, v.few); short = omega (arith, v.short); from = v.from }
  after_reply-Tried a as' rest (answered status body) h t = elim (Bool-cases (is_success status)) [
    | inl e ↦
        rw (e, after_reply)
          (record {
            few = omega arith;
            short = omega arith;
            from = λ x g. record {
              attempt = a;
              status = status;
              body = body;
              reply = h;
              success = e;
              reads = g;
            };
          })
    | inr e ↦
        let v = t (http_status status) in
        elim (Bool-cases (is_retryable_status status)) [
          | inl e' ↦
              rw (e, e', after_reply)
                (record {
                  few = omega (arith, v.few);
                  short = omega (arith, v.short);
                  from = v.from;
                })
          | inr e' ↦
              rw (e, e', after_reply)
                (record { few = omega arith; short = omega arith; from = λ x g. absurd (err≢ok g) })
        ]
  ]

  pub attempt_all-Tried :
      (last : Option FetchError) (as' : List ℕ) → Tried as' (attempt_all read meets last as')
  unfolding attempt_all
  attempt_all-Tried last [] = record {
    few = omega arith;
    short = omega arith;
    from = λ x g. absurd (err≢ok g);
  }
  attempt_all-Tried last (a ∷ as') =
      after_reply-Tried a as' (λ e. attempt_all read meets (some e) as') (meets a) refl
        (λ e. attempt_all-Tried (some e) as')
