-- ===== src/Protocol.antt =====
-- crates/protocol: packets, framing and identities.
pub mod Types
pub mod Packet
pub mod Frame
