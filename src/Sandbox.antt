-- ===== src/Sandbox.antt =====
-- The sandbox of ts-core/src/sandbox.
pub mod ExecutionControl
pub mod StaticPolicy
pub mod Errors
pub mod Steps
pub mod HostCall
pub mod Resume
pub mod Execution
pub mod Histories
