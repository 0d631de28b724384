-- ===== src/Client/Pcb.antt =====
-- The client of a PCB service: `cPCBInterfacePrivate` of zenux-service-interfaces/lib/pcbinterface_p.cpp.
pub mod Commands
pub mod Calls
pub mod Answers
pub mod Declared
pub mod Receive
