-- ===== src/Tests.antt =====
-- The tests, and the theorems at concrete inputs.
mod Fixture
mod Persist
mod Commands
mod Task
mod Keys
mod Devices
mod Flash
mod InternalFs
mod Links
mod Descriptors
