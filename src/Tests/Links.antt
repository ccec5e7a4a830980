-- ===== src/Tests/Links.antt =====
-- Links to the manager at concrete values: a certificate pin, a dial and a handshake.
use bilbycast_gateway_sdk.Base.{
  ℕ, ◌≡◌, refl, ◌↔◌, String, Bool, true, false, Option, none, some, List, [], ◌∷◌, ◌++◌, All, arith,
  ok, err, get_elem?, ltb, map, if◌then◌else◌, ◌-◌,
}
use bilbycast_gateway_sdk.Json.{Json}
use bilbycast_gateway_sdk.Tls.{
  Codes, TlsMode, insecure, standard, accepted, build_tls_config, verify_server_cert,
  verify_signature,
}
use bilbycast_gateway_sdk.Tls.Pinning.{build_tls_config-pins}
use bilbycast_gateway_sdk.Tls.Hex.{plain, IsByte}
use bilbycast_gateway_sdk.Tls.Modes.{Unpinned, build_tls_config-insecure}
use bilbycast_gateway_sdk.WsClient.Dial.{
  Attempts, DialEvent, ends, stagger, racing, where_is, interleave_families, connect_staggered,
  race_of, start_next, select, on_end, give_up,
}
use bilbycast_gateway_sdk.WsClient.Dial.Families.{
  interleave_families-keeps, interleave_families-alternates,
}
use bilbycast_gateway_sdk.WsClient.Dial.Race.{errors, connect_staggered-all_failed}
use bilbycast_gateway_sdk.WsClient.Dial.Staggers.{staggers, addresses, connect_staggered-staggers}
use bilbycast_gateway_sdk.WsClient.Reconnect.{authenticated_then_closed}
use bilbycast_gateway_sdk.WsClient.Handshake.{
  Client, Meets, never_connected, taken, text, one_connection, connections,
}
use bilbycast_gateway_sdk.WsClient.Handshake.Registration.{
  Changes, one_connection-Changes, IsRegistered, Reconnects, connections-Reconnects,
}
use bilbycast_gateway_sdk.Tests.SampleJson.{Value, object, string, field, end, sample_json}

-- A digest of 32 bytes, and its upper-case spelling with white space around it.
abbrev digest : List ℕ
digest =
    171 ∷ 205 ∷ 239 ∷ 1 ∷ 35 ∷ 69 ∷ 103 ∷ 137 ∷ 171 ∷ 205 ∷ 239 ∷ 1 ∷ 35 ∷ 69 ∷ 103 ∷ 137 ∷ 171
    ∷ 205 ∷ 239 ∷ 1 ∷ 35 ∷ 69 ∷ 103 ∷ 137 ∷ 171 ∷ 205 ∷ 239 ∷ 1 ∷ 35 ∷ 69 ∷ 103 ∷ 137 ∷ []

abbrev upper : ℕ → ℕ
upper c = if ltb 96 c then c - 32 else c

abbrev pin : Codes
pin = 32 ∷ map upper (plain digest) ++ 10 ∷ []

digest-IsByte : All IsByte digest
digest-IsByte = omega arith

build_tls_config-pins_example :
    (mode : TlsMode) × (build_tls_config true none true (some pin) ≡ ok mode)
    × ((verify_server_cert (λ (c : ℕ). true) (λ (c m : ℕ). false) (λ (c : ℕ). digest) mode 0
          ≡ accepted)
        ↔ ((true ≡ true) × (digest ≡ digest)))
    × (verify_signature (λ (c : ℕ). true) (λ (c m : ℕ). false) (λ (c : ℕ). digest) mode 0 1 ≡ false)
build_tls_config-pins_example =
    build_tls_config-pins (λ (c : ℕ). true) (λ (c m : ℕ). false) (λ (c : ℕ). digest) none true pin
      digest 0 1 digest-IsByte refl digest-IsByte refl

build_tls_config-insecure_example :
    (build_tls_config true (some "1") true (some (32 ∷ [])) ≡ ok insecure)
    ↔ (Unpinned (some (32 ∷ [])) × (true ≡ true) × ◌≡◌ {A = Option String} (some "1") (some "1"))
build_tls_config-insecure_example = build_tls_config-insecure true (some "1") true (some (32 ∷ []))

-- Addresses below 10 are IPv6.
abbrev is_ipv6 : ℕ → Bool
is_ipv6 a = ltb a 10

interleave_families-keeps_example :
    where_is is_ipv6 false (interleave_families is_ipv6 (1 ∷ 2 ∷ 3 ∷ 11 ∷ 12 ∷ []))
    ≡ where_is is_ipv6 false (1 ∷ 2 ∷ 3 ∷ 11 ∷ 12 ∷ [])
interleave_families-keeps_example =
    interleave_families-keeps is_ipv6 (1 ∷ 2 ∷ 3 ∷ 11 ∷ 12 ∷ []) false

interleave_families-alternates_example :
    (get_elem? (interleave_families is_ipv6 (1 ∷ 2 ∷ 3 ∷ 11 ∷ 12 ∷ [])) 2
      ≡ get_elem? (where_is is_ipv6 true (1 ∷ 2 ∷ 3 ∷ 11 ∷ 12 ∷ [])) 1)
    × (get_elem? (interleave_families is_ipv6 (1 ∷ 2 ∷ 3 ∷ 11 ∷ 12 ∷ [])) 3
        ≡ get_elem? (where_is is_ipv6 false (1 ∷ 2 ∷ 3 ∷ 11 ∷ 12 ∷ [])) 1)
interleave_families-alternates_example =
    interleave_families-alternates is_ipv6 1 (2 ∷ 3 ∷ 11 ∷ 12 ∷ []) 1 (omega arith) (omega arith)

abbrev failures : List (DialEvent String String)
failures = stagger ∷ ends 1 (err "refused") ∷ ends 0 (err "unreachable") ∷ []

connect_staggered-all_failed_example : get_elem? (errors failures) 1 ≡ some "unreachable"
unfolding connect_staggered start_next select on_end give_up
connect_staggered-all_failed_example =
    connect_staggered-all_failed {Addr = ℕ} 1 (11 ∷ []) failures "unreachable" refl

connect_staggered-staggers_example :
    (t : Attempts ℕ String) × (connect_staggered {Stream = String}
        (race_of (1 ∷ 2 ∷ 11 ∷ []))
        (staggers 1)
      ≡ racing t)
    × (addresses t.in_flight ≡ 1 ∷ 2 ∷ [])
    × (t.waiting ≡ 11 ∷ [])
connect_staggered-staggers_example = connect_staggered-staggers (1 ∷ 2 ∷ 11 ∷ []) 1 (omega arith)

abbrev ack_frame : Value
ack_frame = object (
    field "type" (string "register_ack") (
      field "payload"
        (object (field "node_id" (string "n1") (field "node_secret" (string "s1") end))) end))

abbrev library : Json
library = sample_json (("ack", ack_frame) ∷ [])

abbrev debug : String → String
debug s = s

abbrev met : Meets
met = record {
  tls_config = ok standard;
  dial = some (ok tt);
  send = some taken;
  reply = some (text "ack");
  session = authenticated_then_closed;
  epoch = 1700000000;
}

abbrev newcomer : Client
newcomer = record {
  credentials = record { node_id = none; node_secret = none; registration_token = some "token" };
  link = never_connected;
  registrations = [];
}

one_connection-Changes_example :
    Changes library debug met newcomer (one_connection library debug met newcomer).0
one_connection-Changes_example = one_connection-Changes library debug met newcomer

abbrev known : Client
known = record newcomer {
  credentials = record {
    node_id = some "n1";
    node_secret = some "s1";
    registration_token = some "token";
  };
}

connections-Reconnects_example :
    All Reconnects (connections library debug (met ∷ met ∷ []) known).1
    × IsRegistered (connections library debug (met ∷ met ∷ []) known).0.credentials
connections-Reconnects_example =
    connections-Reconnects library debug (met ∷ met ∷ []) known
      (record { id = "n1"; secret = "s1"; has_id = refl; has_secret = refl })
