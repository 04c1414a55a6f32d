-- ===== src/Terrain.antt =====
-- The terrain router of ts-core/src/runtime/transport/terrain/router.ts.
pub mod Action
pub mod World
pub mod Candidates
pub mod Phases
pub mod Visited
pub mod Outcome
pub mod Search
pub mod Router
pub mod Legal
