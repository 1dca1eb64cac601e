-- ===== src/Allowance/Calendar.antt =====
-- The calendar of crates/ket-core/src/allowance.rs, its specification, and the proofs.
pub mod Defs
pub mod Spec
pub mod Days
pub mod Months
