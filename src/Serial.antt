-- ===== src/Serial.antt =====
-- The serial device, internal/device/serial/serial.go, less its framer.
pub mod Classify
pub mod Port
pub mod Session
pub mod New
