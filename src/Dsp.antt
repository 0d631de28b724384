-- ===== src/Dsp.antt =====
-- The DSP server, zdsp1d/lib: its clients, and the layout of their variables in the memory of the
-- DSP.
pub mod Clients
pub mod Consistency
pub mod Lifecycle
pub mod Layout
pub mod Placement
pub mod Globals
pub mod Interrupts
pub mod Upload
pub mod Places
pub mod Switching
pub mod Table
pub mod Words
pub mod Resolver
pub mod DeviceInOut
pub mod Compiler
pub mod Accepted
pub mod CommandLines
