-- ===== src/Interfaces/ServerBridge.antt =====
-- The server bridge of ts-core/src/interfaces/server-bridge: the WebSocket by which the mod in a
-- Minecraft server reports to the service.
pub mod Json
pub mod Protocol
pub mod Envelope
pub mod Connection
pub mod Route
