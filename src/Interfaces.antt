-- ===== src/Interfaces.antt =====
-- The interfaces of ts-core/src/interfaces.
pub mod ServerBridge
