-- ===== src/Runtime.antt =====
-- ts-core/src/runtime: the life of one bot.
pub mod Contracts
pub mod StateMachine
pub mod Actor
