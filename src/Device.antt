-- ===== src/Device.antt =====
-- crates/daemon/src/device.rs: the device manager, an actor that handles one command at a time.
pub mod State
pub mod Trust
pub mod Links
pub mod Invariant
pub mod Keeps
pub mod Transfers
pub mod Pins
pub mod Consent
pub mod Accepted
pub mod Lasting
pub mod Actor
pub mod Snapshot
pub mod Sending
