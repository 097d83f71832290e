-- ===== src/Gui.antt =====
-- crates/gui: the graphical client of the daemon.
pub mod Model
pub mod App
pub mod Reducer
pub mod Update
pub mod Selection
pub mod Invariant
pub mod Session
pub mod Toggles
pub mod Commands
pub mod Examples
