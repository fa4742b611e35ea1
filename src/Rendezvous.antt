-- ===== src/Rendezvous.antt =====
-- The rendezvous server (src/rendezvous_server.rs).
pub mod Net
pub mod Blocker
pub mod State
pub mod Registration
pub mod Reach
pub mod Punch
pub mod Grants
pub mod Dispatch
pub mod Handshake
mod Tests
