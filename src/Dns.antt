-- ===== src/Dns.antt =====
-- core/dnscache: the resolver of the physical network.
pub mod Cache
pub mod Aliases
pub mod Hosts
