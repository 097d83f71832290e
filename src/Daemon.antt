-- ===== src/Daemon.antt =====
-- crates/daemon/src: the requests of the clients, the announcements of devices, and the handshake of a
-- new connection.
pub mod Handler
pub mod Discovery
pub mod Advertised
pub mod Handshake
