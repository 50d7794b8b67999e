-- ===== src/Usb.antt =====
-- The USB control transport, main/src/platform/esp32/usb_control_transport.c.
pub mod Stream
pub mod Session
pub mod Queue
pub mod Link
