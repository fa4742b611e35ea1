-- ===== src/Integration.antt =====
-- The integration state of the management server (src/nemo_integration.rs).
pub mod Config
pub mod DeviceKeys
pub mod Claims
pub mod Names
pub mod Sessions
pub mod Permissions
pub mod Login
pub mod Settings
pub mod Directory
pub mod Tests
