-- ===== src/Server/Keeps.antt =====
-- Every call of the service keeps its invariant.
pub mod Grants
pub mod Sessions
pub mod Upkeep
pub mod Load
pub mod Steps
pub mod Batch
