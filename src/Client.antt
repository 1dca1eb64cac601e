-- ===== src/Client.antt =====
-- How a client chooses the transports it tries (crates/ket-client-core/src), and what it remembers
-- of each network.
pub mod Transport
pub mod Strategy
pub mod Memory
