-- ===== src/WsClient.antt =====
-- src/ws_client.rs: the manager client, by the parts that its comment names.
pub mod Cadence
pub mod Dial
pub mod Handshake
pub mod Reconnect
pub mod Inbound
pub mod Commands
pub mod SessionLoop
