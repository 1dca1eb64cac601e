-- ===== src/Server.antt =====
-- The server's access service: crates/ket-server/src/{model, allowance, activity, meter,
-- grant_admin, service, repository}.rs.
pub mod Model
pub mod Usage
pub mod Activity
pub mod Validate
pub mod Errors
pub mod Secrets
pub mod Slots
pub mod Admin
pub mod Service
pub mod Meter
pub mod Keeps
pub mod Effects
