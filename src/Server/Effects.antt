-- ===== src/Server/Effects.antt =====
-- What a successful call of the service leaves behind.
pub mod Enrolment
pub mod Release
pub mod Room
pub mod Views
pub mod Limits
pub mod Counts
