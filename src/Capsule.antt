-- ===== src/Capsule.antt =====
-- crates/invite-capsule: the canonical encoding of invites.
pub mod Cbor
