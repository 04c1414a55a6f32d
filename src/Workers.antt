-- ===== src/Workers.antt =====
-- ts-core/src/workers: the consumers of the task queues.
pub mod BotWorker
