-- ===== src/Pcb.antt =====
-- The notifiers of the PCB server, zenux-service-common/lib/scpi-interfaces/pcbserver.cpp.
pub mod Notifiers
pub mod Delivery
