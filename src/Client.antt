-- ===== src/Client.antt =====
-- The client's side of the services, zenux-service-interfaces/lib: the proxy that shares connections, the numbers by
-- which answers find their requests, the interfaces of the services, and groups of DSP variables.
pub mod Messages
pub mod Matching
pub mod Pcb
pub mod Proxy
pub mod VarGroup
pub mod Texts
pub mod Ecalc
pub mod Rm
