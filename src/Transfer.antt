-- ===== src/Transfer.antt =====
-- crates/daemon/src/transfer.rs and the receive task of device.rs: files that come in; Outgoing has the task that sends one.
pub mod Name
pub mod Engine
pub mod Stream
pub mod Examples
pub mod Outgoing
