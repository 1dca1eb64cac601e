-- ===== src/Routes.antt =====
-- What goes around the tunnel: the bypass list (crates/ket-tunnel-protocol/src/bypass.rs), and the
-- direct routes of crates/ket-client-core/src/route_keeper.
pub mod Prefix
pub mod Plan
