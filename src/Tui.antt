-- ===== src/Tui.antt =====
-- crates/tui: the interactive terminal client of the daemon.
pub mod Model
pub mod State
pub mod Focus
pub mod Draft
pub mod Keys
pub mod Session
pub mod Badge
pub mod Listed
pub mod Examples
