-- ===== src/Management.antt =====
-- The management service (src/nemo_management.rs): the guards of its requests, the gates on controllers,
-- policies and their secrets, relayed bytes and direct endpoints.
pub mod Replay
pub mod Secrets
pub mod Proof
pub mod Controller
pub mod Policy
pub mod Gates
pub mod Usage
pub mod Endpoints
mod Tests
