-- ===== src/Mining.antt =====
-- ts-core/src/runtime/transport/mining/planner.ts: the search for a route from which a block can
-- be mined.
pub mod Position
pub mod World
pub mod Node
pub mod Route
pub mod Heap
pub mod Visited
pub mod Outcome
pub mod Planner
pub mod Budget
pub mod Legal
