-- ===== src/Openmanet.antt =====
-- The OpenMANET speech of main/src/platform/esp32.
pub mod Comms
