-- ===== src/Outline.antt =====
-- core/outline: the device, which owns its listener, connections and workers, the owner of a stream
-- that is still being set up, and the associations that relay datagrams.
pub mod StreamScope
pub mod Device
pub mod Association
