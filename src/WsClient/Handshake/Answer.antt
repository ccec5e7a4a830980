-- ===== src/WsClient/Handshake/Answer.antt =====
-- src/ws_client.rs, `GatewayClient::one_connection`: when the manager has answered with a registration.
use bilbycast_gateway_sdk.Base.{
  ◌≡◌, refl, ap, ◌∙◌, inl, inr, String, Option, none, some, Option-cases, arith, Result, ok, err,
  Result-cases,
}
use bilbycast_gateway_sdk.Errors.{SdkError}
use bilbycast_gateway_sdk.Json.{Json}
use bilbycast_gateway_sdk.Auth.{AuthOutcome, registered, parse_auth_response}
use bilbycast_gateway_sdk.Tls.{TlsMode}
use bilbycast_gateway_sdk.WsClient.Handshake.{
  Client, Meets, AuthFrame, AuthReply, text, authenticate, dial_and_choose, SendEnd, taken,
  send_timed_out, send_failed, or_shutdown, or_return, sent, reply_text, choose_auth_frame, binary,
  close, other_frame, stream_ended, timed_out, read_failed,
}

module _ (j : Json) (debug : String → String) where
  -- The manager answered with a registration.
  pub record Registers (m : Meets) (id secret : String) : Type 0 where
    pub answer : String
    pub reply : m.reply ≡ some (text answer)
    pub registration : parse_auth_response j debug answer ≡ ok (registered id secret)

  -- The auth frame was sent, and the manager answered it with a registration.
  pub record IsRegistration (m : Meets) (c : Client) (id secret : String) : Type 0 where
    pub mode : TlsMode
    pub has_tls : m.tls_config ≡ ok mode
    pub dialled : m.dial ≡ some (ok tt)
    pub frame : AuthFrame
    pub chosen :
        choose_auth_frame c.credentials.node_id c.credentials.node_secret
          c.credentials.registration_token
        ≡ ok frame
    pub taken_in : m.send ≡ some taken
    pub registers : Registers m id secret

  reply_text-ok : (r : AuthReply) (t : String) → reply_text r ≡ ok t → r ≡ text t
  unfolding reply_text
  reply_text-ok (text u) t h = ground (arith, h)
  reply_text-ok binary t h = absurd (ground (arith, h))
  reply_text-ok close t h = absurd (ground (arith, h))
  reply_text-ok other_frame t h = absurd (ground (arith, h))
  reply_text-ok stream_ended t h = absurd (ground (arith, h))
  reply_text-ok timed_out t h = absurd (ground (arith, h))
  reply_text-ok (read_failed e) t h = absurd (ground (arith, h))

  or_shutdown-ok : {A : Type 0} (o : Option A) (a : A) → or_shutdown o ≡ ok a → o ≡ some a
  unfolding or_shutdown
  or_shutdown-ok none a h = absurd (ground (arith, h))
  or_shutdown-ok (some b) a h = ground (arith, h)

  parsed_ok : {A : Type 0} (r : Result SdkError A) (a : A) → or_return r ≡ ok a → r ≡ ok a
  unfolding or_return
  parsed_ok (ok b) a h = ground (arith, h)
  parsed_ok (err e) a h = absurd (ground (arith, h))

  pub authenticate-Registers :
      (m : Meets) (id secret : String)
      → authenticate j debug m ≡ ok (registered id secret)
      → Registers m id secret
  unfolding authenticate or_shutdown or_return
  authenticate-Registers m id secret h = elim (Option-cases m.send) [
    | inl e ↦ absurd (ground (arith, e, h))
    | inr s ↦ elim (Result-cases (sent s.0)) [
      | inr e ↦ absurd (ground (arith, s.1, e.1, h))
      | inl u ↦ elim (Option-cases m.reply) [
        | inl e ↦ absurd (ground (arith, s.1, u.1, e, h))
        | inr r ↦ elim (Result-cases (reply_text r.0)) [
          | inr e ↦ absurd (ground (arith, s.1, u.1, r.1, e.1, h))
          | inl t ↦ record {
            answer = t.0;
            reply = r.1 ∙ ap some (reply_text-ok r.0 t.0 t.1);
            registration =
                parsed_ok (parse_auth_response j debug t.0) (registered id secret)
                  (ground (arith, s.1, u.1, r.1, t.1, h));
          }
        ]
      ]
    ]
  ]

  pub dial_and_choose_complete :
      (m : Meets) (c : Client) (id secret : String) (g : IsRegistration m c id secret)
      → dial_and_choose j debug m c.credentials ≡ ok g.frame
  unfolding dial_and_choose or_shutdown or_return
  dial_and_choose_complete m c id secret g = ground (arith, g.has_tls, g.dialled, g.chosen)

  pub authenticate_complete :
      (m : Meets) (c : Client) (id secret : String)
      → IsRegistration m c id secret
      → authenticate j debug m ≡ ok (registered id secret)
  unfolding authenticate or_shutdown or_return sent reply_text
  authenticate_complete m c id secret g =
      ground (arith, g.taken_in, g.registers.reply, g.registers.registration)

  -- What it takes to have a frame to send.
  pub record Chooses (m : Meets) (c : Client) (frame : AuthFrame) : Type 0 where
    pub mode : TlsMode
    pub has_tls : m.tls_config ≡ ok mode
    pub dialled : m.dial ≡ some (ok tt)
    pub chosen :
        choose_auth_frame c.credentials.node_id c.credentials.node_secret
          c.credentials.registration_token
        ≡ ok frame

  pub dial_and_choose-Chooses :
      (m : Meets) (c : Client) (frame : AuthFrame)
      → dial_and_choose j debug m c.credentials ≡ ok frame
      → Chooses m c frame
  unfolding dial_and_choose or_shutdown or_return
  dial_and_choose-Chooses m c frame h = elim (Result-cases m.tls_config) [
    | inr e ↦ absurd (ground (arith, e.1, h))
    | inl t ↦ elim (Option-cases m.dial) [
      | inl e ↦ absurd (ground (arith, t.1, e, h))
      | inr d ↦ elim (Result-cases d.0) [
        | inr e ↦ absurd (ground (arith, t.1, d.1, e.1, h))
        | inl u ↦ record {
          mode = t.0;
          has_tls = t.1;
          dialled = ground (arith, d.1, u.1);
          chosen = parsed_ok _ frame (ground (arith, t.1, d.1, u.1, h));
        }
      ]
    ]
  ]

  sent-ok : (e : SendEnd) → sent e ≡ ok tt → e ≡ taken
  unfolding sent
  sent-ok taken h = refl
  sent-ok send_timed_out h = absurd (ground (arith, h))
  sent-ok (send_failed e) h = absurd (ground (arith, h))

  pub authenticate-taken :
      (m : Meets) (o : AuthOutcome) → authenticate j debug m ≡ ok o → m.send ≡ some taken
  unfolding authenticate or_shutdown or_return
  authenticate-taken m o h = elim (Option-cases m.send) [
    | inl e ↦ absurd (ground (arith, e, h))
    | inr s ↦ elim (Result-cases (sent s.0)) [
      | inr e ↦ absurd (ground (arith, s.1, e.1, h))
      | inl u ↦ s.1 ∙ ap some (sent-ok s.0 u.1)
    ]
  ]
