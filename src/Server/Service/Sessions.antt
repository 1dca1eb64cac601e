-- ===== src/Server/Service/Sessions.antt =====
-- Sessions: enrolment, authentication, renewal and release in crates/ket-server/src/service.rs.
mod Enrolment
mod Tokens
mod DataPlane
unfoldable pub use Enrolment.*
unfoldable pub use Tokens.*
unfoldable pub use DataPlane.*
