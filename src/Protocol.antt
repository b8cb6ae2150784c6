-- ===== src/Protocol.antt =====
-- The protocol core, class via::Protocol.
pub mod Config
pub mod Board
pub mod Sizes
pub mod Valid
pub mod Contract
pub mod Keymap
pub mod Persist
pub mod Reset
pub mod Packet
pub mod Inside
pub mod Process
pub mod Task
