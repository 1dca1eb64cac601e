-- ===== src/Share.antt =====
-- The hotspot share of crates/ket-share/src: where a nearby device asks to go, the addresses it reaches,
-- its lookups, and how often it may guess the password.
pub mod Policy
pub mod Limiter
pub mod Target
pub mod Dns
