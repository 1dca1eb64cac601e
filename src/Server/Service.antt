-- ===== src/Server/Service.antt =====
-- `AccessService` of crates/ket-server/src/service.rs over the file repository of
-- crates/ket-server/src/repository.rs. The calls stand in the children.
pub mod State
pub mod Grants
pub mod Batch
pub mod Views
pub mod Sessions
pub mod Upkeep
pub mod Enrolled
pub mod Invariant
