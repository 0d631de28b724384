-- ===== src/Clamp.antt =====
-- The clamps of the measuring channels:
-- zenux-service-common/lib/scpi-interfaces/clampinterface.cpp.
pub mod Interface
pub mod Views
pub mod Plugs
pub mod Lifecycle
