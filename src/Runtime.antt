-- ===== src/Runtime.antt =====
-- core/sessionapi/runtime: how the network and a protocol attempt are opened, watched and given back.
pub mod Lease
pub mod Monitor
pub mod Readiness
pub mod Start
pub mod Acquisition
pub mod Ownership
pub mod Platform
pub mod Network
