-- ===== src/Ble.antt =====
-- The BLE control service, main/src/platform/esp32/ble_control.c.
pub mod Receive
pub mod Ota
pub mod Voice
