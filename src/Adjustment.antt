-- ===== src/Adjustment.antt =====
-- The adjustment data in the EEPROM of a channel, and its cache:
-- zenux-service-common/lib/adjustment/adjustmenteepromreadwrite.cpp.
pub mod Buffer
pub mod ReadWrite
pub mod RoundTrip
pub mod Validity
pub mod Memory
