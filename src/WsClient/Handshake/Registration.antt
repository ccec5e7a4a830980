-- ===== src/WsClient/Handshake/Registration.antt =====
-- src/ws_client.rs, `GatewayClient::one_connection`: when the credentials change, and which auth frame
-- is sent.
use bilbycast_gateway_sdk.Base.{
  ◌≡◌, refl, sym, ap, ◌∙◌, ◌⊎◌, ◌≢◌, err≢ok, inl, inr, String, Option, none, some, Option-cases,
  List, [], ◌∷◌, ◌++◌, All, arith, ok, err, Result-cases,
}
use bilbycast_gateway_sdk.Json.{Json}
use bilbycast_gateway_sdk.Auth.{AuthOutcome, registered, authenticated}
use bilbycast_gateway_sdk.WsClient.Handshake.{
  Client, LiveCredentials, Meets, AuthFrame, reconnecting, registering, Early, accept, answered,
  authenticate, after_choice, dial_and_choose, one_connection, connections, set_connected,
  set_disconnected, or_shutdown, or_return, choose_auth_frame,
}
use bilbycast_gateway_sdk.WsClient.Handshake.Answer.{
  IsRegistration, Chooses, authenticate-Registers, dial_and_choose_complete, authenticate_complete,
  dial_and_choose-Chooses, authenticate-taken,
}

module _ (j : Json) (debug : String → String) where
  abbrev pub Changes : Meets → Client → Client → Type 0
  Changes m c c' =
      (((id secret : String) → ¬ IsRegistration j debug m c id secret)
        × (c'.credentials ≡ c.credentials)
        × (c'.registrations ≡ c.registrations))
      ⊎ ((id : String) × (secret : String) × IsRegistration j debug m c id secret
          × (c'.credentials
              ≡ record { node_id = some id; node_secret = some secret; registration_token = none })
          × (c'.registrations ≡ c.registrations ++ (id, secret) ∷ []))

  plain_ok :
      (a : Early AuthOutcome) (id secret : String)
      → a ≡ ok authenticated
      → a ≢ ok (registered id secret)
  plain_ok a id secret h h' = cc

  answered-Changes :
      (m : Meets) (c : Client) (frame : AuthFrame) (a : Early AuthOutcome)
      → Chooses j debug m c frame
      → authenticate j debug m ≡ a
      → Changes m c (answered j debug m c a).0
  unfolding answered accept set_connected
  answered-Changes m c frame (err r) v h =
      inl
        (λ id secret g. err≢ok (sym h ∙ authenticate_complete j debug m c id secret g), refl, refl)
  answered-Changes m c frame (ok authenticated) v h = inl (
    λ id secret g.
        plain_ok (authenticate j debug m) id secret h
          (authenticate_complete j debug m c id secret g),
    refl,
    refl,
  )
  answered-Changes m c frame (ok (registered id secret)) v h = inr (
    id,
    secret,
    record {
      mode = v.mode;
      has_tls = v.has_tls;
      dialled = v.dialled;
      frame = frame;
      chosen = v.chosen;
      taken_in = authenticate-taken j debug m (registered id secret) h;
      registers = authenticate-Registers j debug m id secret h;
    },
    refl,
    refl,
  )

  after_choice-Changes :
      (m : Meets) (c : Client) (f : Early AuthFrame)
      → dial_and_choose j debug m c.credentials ≡ f
      → Changes m c (after_choice j debug m c f).0
  unfolding after_choice
  after_choice-Changes m c (err r) e =
      inl (
        λ id secret g. err≢ok (sym e ∙ dial_and_choose_complete j debug m c id secret g),
        refl,
        refl,
      )
  after_choice-Changes m c (ok frame) e =
      answered-Changes m c frame (authenticate j debug m)
        (dial_and_choose-Chooses j debug m c frame e) refl

-- A connection changes the credentials exactly when it has a TLS mode, dials, has an auth frame to
-- send that is taken, and the manager answers it with a registration: then the id and the secret are those of the answer, the registration token is gone, and
-- the callback is called once, with that id and secret. In every other case (a failed dial, a refused
-- frame, a timeout, an error, a shutdown, a plain `auth_ok`) they stay and nothing is called.
pub one_connection-Changes :
    (j : Json) (debug : String → String) (m : Meets) (c : Client)
    → Changes j debug m c (one_connection j debug m c).0
unfolding one_connection
one_connection-Changes j debug m c =
    after_choice-Changes j debug m c (dial_and_choose j debug m c.credentials) refl

-- Credentials that have an id and a secret.
pub record IsRegistered (l : LiveCredentials) : Type 0 where
  pub id : String
  pub secret : String
  pub has_id : l.node_id ≡ some id
  pub has_secret : l.node_secret ≡ some secret

-- No frame, or one that reconnects.
abbrev pub Reconnects : Option AuthFrame → Type 0
Reconnects none = Unit {0}
Reconnects (some (reconnecting id secret)) = Unit {0}
Reconnects (some (registering token)) = ⊥

module _ (j : Json) (debug : String → String) where
  one_connection-IsRegistered :
      (m : Meets) (c : Client)
      → IsRegistered c.credentials
      → IsRegistered (one_connection j debug m c).0.credentials
  one_connection-IsRegistered m c r = elim (one_connection-Changes j debug m c) [
    | inl p ↦ record {
      id = r.id;
      secret = r.secret;
      has_id = ap (λ l. l.node_id) p.1 ∙ r.has_id;
      has_secret = ap (λ l. l.node_secret) p.1 ∙ r.has_secret;
    }
    | inr p ↦
        let (id, secret, _, e, _) = p in
        record {
          id = id;
          secret = secret;
          has_id = ap (λ l. l.node_id) e;
          has_secret = ap (λ l. l.node_secret) e;
        }
  ]

  no_token_sent :
      (m : Meets) (l : LiveCredentials) (token : String)
      → IsRegistered l
      → dial_and_choose j debug m l ≡ ok (registering token)
      → ⊥
  unfolding dial_and_choose choose_auth_frame or_shutdown or_return
  no_token_sent m l token k h = elim (Result-cases m.tls_config) [
    | inr e ↦ ground (arith, e.1, h)
    | inl t ↦ elim (Option-cases m.dial) [
      | inl e ↦ ground (arith, t.1, e, h)
      | inr d ↦ elim (Result-cases d.0) [
        | inr e ↦ ground (arith, t.1, d.1, e.1, h)
        | inl u ↦ ground (arith, t.1, d.1, u.1, k.has_id, k.has_secret, h)
      ]
    ]
  ]

  after_choice-Reconnects :
      (m : Meets) (c : Client) (f : Early AuthFrame)
      → f ≡ dial_and_choose j debug m c.credentials
      → IsRegistered c.credentials
      → Reconnects (after_choice j debug m c f).1
  unfolding after_choice
  after_choice-Reconnects m c (err r) e k = tt
  after_choice-Reconnects m c (ok (reconnecting id secret)) e k = tt
  after_choice-Reconnects m c (ok (registering token)) e k =
      absurd (no_token_sent m c.credentials token k (sym e))

  one_connection-Reconnects :
      (m : Meets) (c : Client)
      → IsRegistered c.credentials
      → Reconnects (one_connection j debug m c).1
  unfolding one_connection
  one_connection-Reconnects m c r =
      after_choice-Reconnects m c (dial_and_choose j debug m c.credentials) refl r

-- From a registered client on, whatever its connections meet, no registration token is ever sent
-- again: every auth frame is one with an id and a secret, and the client stays registered.
pub connections-Reconnects :
    (j : Json) (debug : String → String) (ms : List Meets) (c : Client)
    → IsRegistered c.credentials
    → All Reconnects (connections j debug ms c).1
      × IsRegistered (connections j debug ms c).0.credentials
unfolding connections set_disconnected
connections-Reconnects j debug [] c r = (tt, r)
connections-Reconnects j debug (m ∷ ms) c r =
    let c' = (one_connection j debug m c).0 in
    let (all, still) =
      connections-Reconnects j debug ms (record c' { link = set_disconnected c'.link })
        (one_connection-IsRegistered j debug m c r) in
    ((one_connection-Reconnects j debug m c r, all), still)
