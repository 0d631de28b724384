-- ===== src/Tests.antt =====
-- Tests: the theorems applied to concrete states.
pub mod Notifier
pub mod Sec
pub mod Eeprom
pub mod Adjustment
pub mod Dsp
pub mod Pcb
pub mod Upload
pub mod Words
pub mod Hotplug
pub mod Clamp
pub mod Compiler
pub mod Client
pub mod DspVars
