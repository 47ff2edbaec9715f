-- ===== src/Tunnel.antt =====
-- core/tunnel: the engine with its stable router, the dials and flows of an attempt, and which
-- destinations and sockets stay outside the tunnel.
pub mod FlowOwner
pub mod SwitchingProxy
pub mod Engine
pub mod Dialing
pub mod Bypass
pub mod SocketScope
