-- ===== src/Tui.antt =====
-- tui/: the state of the terminal interface and what a key press or a tick makes of it. Drawing and the
-- log file are left out.
pub mod Key
pub mod Bridge
pub mod Unlocked
pub mod Poll
pub mod Create
pub mod Unlock
pub mod Vaults
pub mod Network
pub mod Tab
pub mod Settings
pub mod App
