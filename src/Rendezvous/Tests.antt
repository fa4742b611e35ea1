-- ===== src/Rendezvous/Tests.antt =====
-- Runs of the rendezvous server's model, and the theorems on the same data.
pub mod Data
mod Registering
mod Relaying
mod Handshakes
