-- ===== src/Ble.antt =====
-- The Bluetooth transports and keyboards of src/.
pub mod Mailbox
pub mod Nrf52
pub mod Esp32
