-- ===== src/Relay.antt =====
-- The relay (src/relay_server.rs) and the grants that let a client onto it (src/common.rs).
pub mod Grant
pub mod Pairing
pub mod Session
pub mod Tests
