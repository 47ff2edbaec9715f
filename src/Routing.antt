-- ===== src/Routing.antt =====
-- core/routing: the routing resources of a VPN session.
pub mod Plan
