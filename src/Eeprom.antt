-- ===== src/Eeprom.antt =====
-- The adjustment memory: the EEPROM driver of i2ceeprom/lib, and what is stored on it by
-- zenux-service-common/lib/adjustment.
pub mod Bus
pub mod Driver
pub mod Write
pub mod Read
pub mod Termination
