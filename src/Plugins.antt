-- ===== src/Plugins.antt =====
-- crates/plugins: the packet transformers, their metadata, and the registry.
pub mod Meta
pub mod Reply
pub mod Signals
pub mod Media
pub mod Commands
pub mod Battery
pub mod Share
pub mod PauseMusic
pub mod Registry
pub mod Examples
