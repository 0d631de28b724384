-- ===== src/Sec.antt =====
-- The error calculator service, sec1000d/lib.
pub mod Device
pub mod Conf
pub mod Channel
pub mod Commands
pub mod Authority
pub mod Effects
pub mod Allocation
pub mod Select
pub mod Release
pub mod RoundTrip
pub mod Interrupts
