-- ===== src/WsClient/Dial.antt =====
-- src/ws_client.rs, `interleave_families` and `connect_staggered`: the order in which the addresses of
-- a manager are tried, and the race of the attempts. What the race meets is its input: an attempt that
-- ends, named by its start, and the stagger that runs out. The set of the futures that still run holds
-- the attempts of `in_flight`.
pub mod Families
pub mod Manager
mod InFlight
pub mod Race
pub mod Staggers
use bilbycast_gateway_sdk.Base.{
  ℕ, ◌+◌, Bool, true, false, not, Option, none, some, List, [], ◌∷◌, ◌++◌, ltb, ◌==◌, if◌then◌else◌,
  Result, ok, err,
}

abbrev pub bool_eq : Bool → Bool → Bool
bool_eq true b = b
bool_eq false b = not b

-- The elements on which the test gives the answer.
abbrev pub where_is {ℓ} : {A : Type ℓ} → (A → Bool) → Bool → List A → List A
where_is p b [] = []
where_is p b (x ∷ xs) = let rest = where_is p b xs in if bool_eq (p x) b then x ∷ rest else rest

unfoldable pub interleave {ℓ} : {A : Type ℓ} → List A → List A → List A
interleave [] [] = []
interleave (a ∷ as') [] = a ∷ interleave as' []
interleave [] (b ∷ bs) = b ∷ interleave [] bs
interleave (a ∷ as') (b ∷ bs) = a ∷ b ∷ interleave as' bs

unfoldable pub interleave_families {ℓ} : {A : Type ℓ} → (A → Bool) → List A → List A
interleave_families is_ipv6 [] = []
interleave_families is_ipv6 (first ∷ addrs) =
    interleave (where_is is_ipv6 (is_ipv6 first) (first ∷ addrs))
      (where_is is_ipv6 (not (is_ipv6 first)) (first ∷ addrs))

pub record Attempts (Addr IoError : Type 0) : Type 0 where
  pub waiting : List Addr
  pub in_flight : List (ℕ × Addr)
  pub started : ℕ
  pub last_err : Option IoError

pub data DialEvent (Stream IoError : Type 0) : Type 0 where
  ends : ℕ → Result IoError Stream → DialEvent Stream IoError
  stagger : DialEvent Stream IoError

-- `racing`: not over yet. `impossible`: met by an event that its state rules out.
pub data DialEnd (Addr Stream IoError : Type 0) : Type 0 where
  connected : Stream → Addr → List Addr → DialEnd Addr Stream IoError
  all_failed : IoError → DialEnd Addr Stream IoError
  no_addresses : DialEnd Addr Stream IoError
  racing : Attempts Addr IoError → DialEnd Addr Stream IoError
  impossible : DialEnd Addr Stream IoError

module _ {Addr : Type 0} where
  abbrev pub address_of : ℕ → List (ℕ × Addr) → Option Addr
  address_of seq [] = none
  address_of seq ((n, a) ∷ rest) =
      let found = address_of seq rest in if n == seq then some a else found

  -- `retain`
  abbrev pub without : ℕ → List (ℕ × Addr) → List (ℕ × Addr)
  without seq [] = []
  without seq ((n, a) ∷ rest) =
      let kept = without seq rest in if n == seq then kept else (n, a) ∷ kept

  abbrev pub started_before : ℕ → List (ℕ × Addr) → List Addr
  started_before seq [] = []
  started_before seq ((n, a) ∷ rest) =
      let others = started_before seq rest in if ltb n seq then a ∷ others else others

abbrev pub is_nil {ℓ} : {A : Type ℓ} → List A → Bool
is_nil [] = true
is_nil (x ∷ xs) = false

module _ {Addr IoError : Type 0} where
  unfoldable pub start_next : Attempts Addr IoError → List Addr → Attempts Addr IoError
  start_next s [] = s
  start_next s (addr ∷ waiting) = record {
    waiting = waiting;
    in_flight = s.in_flight ++ (s.started, addr) ∷ [];
    started = s.started + 1;
    last_err = s.last_err;
  }

  abbrev pub race_of : List Addr → Attempts Addr IoError
  race_of addrs = record { waiting = addrs; in_flight = []; started = 0; last_err = none }

module _ {Addr Stream IoError : Type 0} where
  unfoldable pub give_up : Option IoError → DialEnd Addr Stream IoError
  give_up none = no_addresses
  give_up (some e) = all_failed e

  -- What an attempt's end does; `go_on` is the rest of the loop.
  unfoldable pub on_end :
      Attempts Addr IoError
      → ℕ
      → Result IoError Stream
      → Option Addr
      → (Attempts Addr IoError → DialEnd Addr Stream IoError)
      → DialEnd Addr Stream IoError
  on_end s seq r none go_on = impossible
  on_end s seq (ok stream) (some addr) go_on =
      connected stream addr (started_before seq (without seq s.in_flight))
  on_end s seq (err e) (some addr) go_on =
      go_on (record s { in_flight = without seq s.in_flight; last_err = some e })

  unfoldable pub select :
      Attempts Addr IoError
      → DialEvent Stream IoError
      → (Attempts Addr IoError → DialEnd Addr Stream IoError)
      → DialEnd Addr Stream IoError
  select s (ends seq r) go_on = on_end s seq r (address_of seq s.in_flight) go_on
  select s stagger go_on = if is_nil s.waiting then impossible else go_on s

  unfoldable pub connect_staggered :
      Attempts Addr IoError → List (DialEvent Stream IoError) → DialEnd Addr Stream IoError
  connect_staggered s [] =
      let s' = start_next s s.waiting in
      if is_nil s'.in_flight then give_up s'.last_err else racing s'
  connect_staggered s (e ∷ es) =
      let s' = start_next s s.waiting in
      let go_on = λ (t : Attempts Addr IoError). connect_staggered t es in
      if is_nil s'.in_flight then give_up s'.last_err else select s' e go_on
