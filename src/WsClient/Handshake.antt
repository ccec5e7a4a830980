-- ===== src/WsClient/Handshake.antt =====
-- src/ws_client.rs, `GatewayClient::one_connection`: the dial and the handshake of one connection, with
-- the live credentials and the public state of the link. What a connection meets at each of its
-- waits is its input: how the wait ends, or that the shutdown comes first (`none`).
pub mod Answer
pub mod Registration
use bilbycast_gateway_sdk.Base.{
  ℕ, String, Bool, true, false, Option, none, some, List, [], ◌∷◌, ◌++◌, Result, ok, err, ◌>>=◌,
  ◌>>◌, ◌==◌, if◌then◌else◌,
}
use bilbycast_gateway_sdk.Errors.{
  SdkError, config, auth, auth_timeout, web_socket, no_credentials_configured,
}
use bilbycast_gateway_sdk.Config.{GatewayConfig}
use bilbycast_gateway_sdk.Json.{Json}
use bilbycast_gateway_sdk.Envelope.{auth_register, auth_reconnect}
use bilbycast_gateway_sdk.Auth.{AuthOutcome, registered, authenticated, parse_auth_response}
use bilbycast_gateway_sdk.Tls.{TlsMode}
use bilbycast_gateway_sdk.WsClient.Reconnect.{ConnectionResult, shutdown_requested}

pub record LiveCredentials : Type 0 where
  pub node_id : Option String
  pub node_secret : Option String
  pub registration_token : Option String

-- The epoch is 0 while the link has never been up.
pub record ConnectionState : Type 0 where
  pub connected : Bool
  pub last_connect_epoch : ℕ

abbrev pub never_connected : ConnectionState
never_connected = record { connected = false; last_connect_epoch = 0 }

unfoldable pub set_connected : ℕ → ConnectionState → ConnectionState
set_connected now l = record { connected = true; last_connect_epoch = now }

unfoldable pub set_disconnected : ConnectionState → ConnectionState
set_disconnected l = record l { connected = false }

abbrev pub last_connect : ConnectionState → Option ℕ
last_connect l = if l.last_connect_epoch == 0 then none else some l.last_connect_epoch

-- What a client keeps across its connections. `registrations` are the calls of its callback.
pub record Client : Type 0 where
  pub credentials : LiveCredentials
  pub link : ConnectionState
  pub registrations : List (String × String)

unfoldable pub live_credentials : GatewayConfig → LiveCredentials
live_credentials cfg = record {
  node_id = cfg.node_id;
  node_secret = cfg.node_secret;
  registration_token = cfg.registration_token;
}

unfoldable pub new_client : GatewayConfig → Client
unfolding live_credentials
new_client cfg = record {
  credentials = live_credentials cfg;
  link = never_connected;
  registrations = [];
}

pub data AuthFrame : Type 0 where
  reconnecting : String → String → AuthFrame
  registering : String → AuthFrame

unfoldable pub frame_of_token : Option String → Result SdkError AuthFrame
frame_of_token none = err (config no_credentials_configured)
frame_of_token (some token) = ok (registering token)

-- The node's id and secret before a registration token.
unfoldable pub choose_auth_frame :
    Option String → Option String → Option String → Result SdkError AuthFrame
unfolding frame_of_token
choose_auth_frame (some id) (some secret) token = ok (reconnecting id secret)
choose_auth_frame (some id) none token = frame_of_token token
choose_auth_frame none secret token = frame_of_token token

pub data SendEnd : Type 0 where
  taken send_timed_out : SendEnd
  send_failed : SdkError → SendEnd

pub data AuthReply : Type 0 where
  text : String → AuthReply
  binary close other_frame stream_ended timed_out : AuthReply
  read_failed : SdkError → AuthReply

pub record Meets : Type 0 where
  pub tls_config : Result SdkError TlsMode
  pub dial : Option (Result SdkError (Unit {0}))
  pub send : Option SendEnd
  pub reply : Option AuthReply
  pub session : ConnectionResult
  pub epoch : ℕ

-- A connection's own result, on which it returns early.
abbrev pub Early : Type 0 → Type 0
Early A = Result (Result SdkError ConnectionResult) A

unfoldable pub or_shutdown : {A : Type 0} → Option A → Early A
or_shutdown none = err (ok shutdown_requested)
or_shutdown (some a) = ok a

unfoldable pub or_return : {A : Type 0} → Result SdkError A → Early A
or_return (ok a) = ok a
or_return (err e) = err (err e)

unfoldable pub sent : SendEnd → Result SdkError (Unit {0})
sent taken = ok tt
sent send_timed_out = err (web_socket "the manager did not take the auth frame within 10s")
sent (send_failed e) = err e

unfoldable pub reply_text : AuthReply → Result SdkError String
reply_text (text t) = ok t
reply_text binary = err (auth "binary auth response")
reply_text close = err (auth "connection closed during auth")
reply_text other_frame = err (auth "non-text auth frame")
reply_text stream_ended = err (auth "connection closed before auth response")
reply_text timed_out = err auth_timeout
reply_text (read_failed e) = err e

unfoldable pub accept : AuthOutcome → Client → Client
accept (registered id secret) c = record c {
  credentials = record { node_id = some id; node_secret = some secret; registration_token = none };
  registrations = c.registrations ++ (id, secret) ∷ [];
}
accept authenticated c = c

module _ (j : Json) (debug : String → String) where
  -- The text of an auth frame.
  unfoldable pub auth_text : GatewayConfig → String → AuthFrame → String
  auth_text cfg now (reconnecting id secret) =
      auth_reconnect j now id secret cfg.software_version cfg.device_type
  auth_text cfg now (registering token) =
      auth_register j now token cfg.software_version cfg.device_type

  -- The part before the auth frame, and the part from it to the manager's answer.
  unfoldable pub dial_and_choose : Meets → LiveCredentials → Early AuthFrame
  dial_and_choose m c = do
    mode ← or_return m.tls_config
    dialled ← or_shutdown m.dial
    or_return dialled
    or_return (choose_auth_frame c.node_id c.node_secret c.registration_token)

  unfoldable pub authenticate : Meets → Early AuthOutcome
  authenticate m = do
    end ← or_shutdown m.send
    or_return (sent end)
    reply ← or_shutdown m.reply
    answer ← or_return (reply_text reply)
    or_return (parse_auth_response j debug answer)

  unfoldable pub answered :
      Meets → Client → Early AuthOutcome → Client × Result SdkError ConnectionResult
  answered m c (err r) = (c, r)
  answered m c (ok outcome) =
      let c' = accept outcome c in
      (record c' { link = set_connected m.epoch c'.link }, ok m.session)

  -- The client afterwards, the auth frame that was sent, and the connection's result.
  unfoldable pub after_choice :
      Meets
      → Client
      → Early AuthFrame
      → Client × Option AuthFrame × Result SdkError ConnectionResult
  after_choice m c (err r) = (c, none, r)
  after_choice m c (ok frame) = let (c', r) = answered m c (authenticate m) in (c', some frame, r)

  unfoldable pub one_connection :
      Meets → Client → Client × Option AuthFrame × Result SdkError ConnectionResult
  one_connection m c = after_choice m c (dial_and_choose m c.credentials)

  -- One connection after the other, each of which `run` marks as down at its end: the client at the
  -- end, and the auth frames sent.
  unfoldable pub connections : List Meets → Client → Client × List (Option AuthFrame)
  connections [] c = (c, [])
  connections (m ∷ ms) c =
      let (c', frame, r) = one_connection m c in
      let (c'', frames) = connections ms (record c' { link = set_disconnected c'.link }) in
      (c'', frame ∷ frames)
