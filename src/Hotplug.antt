-- ===== src/Hotplug.antt =====
-- Controllers that can be plugged in and out: zenux-service-common/lib/micro-controller-io.
pub mod Container
pub mod Views
pub mod Lifecycle
pub mod Detection
pub mod Availability
pub mod Hex
pub mod Commands
pub mod Addressing
