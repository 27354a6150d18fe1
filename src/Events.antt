-- ===== src/Events.antt =====
-- libs/server/src/lib/sources: the ring buffer of source transitions.
pub mod Ring
pub mod Broker
