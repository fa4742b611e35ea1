-- ===== src/Integration/Tests.antt =====
-- Runs of the model on small data, and the theorems on the same data.
pub mod Data
mod DeviceKeys
mod Claims
mod Names
mod Sessions
mod Permissions
mod Login
mod Directory
