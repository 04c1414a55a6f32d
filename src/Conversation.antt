-- ===== src/Conversation.antt =====
-- The conversation worker of ts-core/src/conversation.
pub mod InventoryDiff
