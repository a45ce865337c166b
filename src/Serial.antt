-- ===== src/Serial.antt =====
-- The serial link to the Pico: pc/src/pywinhello/serial.
pub mod Protocol
pub mod Port
pub mod Link
pub mod Flasher
pub mod Ports
pub mod Device
