-- ===== src/Lib.antt =====
-- A verification library for bilbycast-gateway-sdk, the SDK of gateway sidecars that connect out to
-- bilbycast-manager over a WebSocket (repository paths are given from its root, the crate is in
-- src/).
--
-- The program: a sidecar builds a `GatewayConfig`, which `GatewayClient::connect` validates.
-- `GatewayClient::run` then connects to one manager URL after another. A connection dials (addresses
-- in an order that alternates families, attempts that overlap), sends an auth frame, waits for the
-- reply, and runs a session. In a session a reader judges whether the manager is alive, a loop writes
-- and routes what was read, and a worker runs the vendor's handler on commands, one at a time. The
-- upgrade part fetches a signed release manifest, checks it, stages the new version, and has a
-- watchdog at boot that goes back to the previous version when the new one never gets healthy.
--
-- The files, and the code that they model:
--   Base, Sort           shared names and lemmas; the order statistics of a sorted list
--   Errors               src/errors.rs: `SdkError`, with the configuration messages as data
--   Config               src/config.rs: `GatewayConfig::validate`, `ReconnectBackoff`
--   Json                 an interface for serde_json: its operations, with the laws of its documentation
--   Envelope             src/envelope.rs: the envelope, the two auth frames, `parse`
--   Events               src/events.rs: `GatewayEvent`, its builders and its payload
--   Auth                 src/auth.rs: `parse_auth_response`
--   Auth/Credentials     src/auth.rs: the credentials file
--   Emit                 src/emit.rs and `CommandError`: `command_ack_payload`, the methods of `Emitter`
--   Tls                  src/tls.rs: the TLS mode, the spelling of fingerprints, the two verifiers
--   WsClient/Reconnect   src/ws_client.rs: the loop of `GatewayClient::run`
--   WsClient/Dial        `dial_manager`, `interleave_families` and `connect_staggered`
--   WsClient/Handshake   `one_connection`, `LiveCredentials`, `ConnectionState`
--   WsClient/Cadence     `InboundCadence`, the silence watchdog
--   WsClient/Inbound     `route_inbound` and `refuse_busy`: from a frame to the command queue
--   WsClient/Commands    `run_commands`, `run_command`, `finish_command`, and src/dispatch.rs
--   WsClient/SessionLoop `run_session`, `read_manager`, `drive_session` and `send_bounded`
--   Upgrade/Manifest     src/upgrade/manifest.rs
--   Upgrade/State        src/upgrade/state.rs: state.json, with the faults of its writes
--   Upgrade/Signers      src/upgrade/trust.rs and `identity_matches_allowlist` of src/upgrade/verify.rs
--   Upgrade/Watchdog     src/upgrade/watchdog.rs
--   Upgrade/Stage        `UpgradeCoordinator::stage` of src/upgrade/mod.rs
--   Upgrade/Download     src/upgrade/download.rs: the two fetches
--   Upgrade/Verify       src/upgrade/verify.rs: `verify_manifest_bundle`, the check of a signature
--   Upgrade/Archive      src/upgrade/apply.rs: `extract_tarball` and `locate_binary`
--   Upgrade/Apply        src/upgrade/apply.rs: what changes the install root
--   Tests                runs at concrete inputs, with a small JSON library
--
-- State and operations: a Rust struct is a record under its own name, a `&mut self` method a function
-- from the record to the record, a `Result` a `Result` of Base/Outcome, and a panic `none`. Where tasks
-- interleave (the reader, the session loop and the command worker), an event is one uninterrupted piece
-- of one of them, and a theorem about a run holds for every list of events, that is for every
-- interleaving. Where the code waits for the network, a timer or a shutdown, how the wait ends is an
-- input.
--
-- Numbers are natural numbers; where the code wraps, saturates or cuts (`wrapping_add` on `usize`,
-- `saturating_add` on `u32`, `as u32`, the sum of a minor version and its grace) this is written out,
-- with `usize` of 64 bits. Durations and times are nanoseconds of ℕ, whose subtraction stops at 0, as
-- `saturating_duration_since` does. `String` measures bytes of UTF-8; Tls has texts as lists of code
-- points. All recursion is structural, on lists of events, of URLs or of addresses: no fuel is used.
--
-- Third-party code is a parameter: serde_json and the codecs that serde derives (Json), `url::Url::parse`,
-- `semver`, the webpki verifier, base64, x509-cert, sigstore, SHA-256, and the `{:?}` formats. What an
-- HTTP request, an entry of an archive or a call of the file system meets is an input. The time stamp
-- of an envelope is an argument.
--
-- How the parts are joined: Handshake takes how its session ends as an input, and Reconnect how its
-- connection ends; SessionLoop has the session itself. In the same way a staging takes the answers of
-- the download, of the verification and of the installation, which Download, Verify, Archive and Apply
-- model; Upgrade/Stage/Sources computes them from what the network and the file system answer. A
-- request to stage has its architecture and its variant, after the defaults.
--
-- Not modelled: the wait for a running command at shutdown, `detect_arch`, src/wizards.rs (data types
-- that nothing calls), logging, and file locks.
mod Base
pub mod Sort
pub mod Tests
pub mod Errors
pub mod Config
pub mod Json
pub mod Envelope
pub mod Auth
pub mod Emit
pub mod Events
pub mod WsClient
pub mod Upgrade
pub mod Tls
