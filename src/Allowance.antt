-- ===== src/Allowance.antt =====
-- Data allowances: the UTC periods of crates/ket-core/src/allowance.rs and the running totals of
-- crates/ket-server/src/allowance.rs.
pub mod Calendar
pub mod Period
