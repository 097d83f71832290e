-- ===== src/Ipc.antt =====
-- crates/ipc: the local protocol between the daemon and its clients.
pub mod Codec
pub mod Client
pub mod Proto
