-- ===== src/Terrain/Outcome.antt =====
-- What ts-core/src/runtime/transport/terrain/router.ts returns and logs, and what a search is given.
use mc_servant.Base.{ℕ, ◌+◌, Bool, Option, List, [], ◌∷◌, if◌then◌else◌}
use mc_servant.Mining.Position.{same_pos}
use mc_servant.Terrain.Action.{
  TerrainBlockPos, TerrainRouteAction, TerrainActionKind, kind, SearchNode,
}
use mc_servant.Terrain.World.{TerrainRouteSearchPhaseName, Goal}
use mc_servant.Terrain.Candidates.{TerrainSearchPhase}
use mc_servant.Terrain.Visited.{TerrainStateKey, same_kind}

pub record TerrainRoutePlan : Type 0 where
  pub actions : List TerrainRouteAction
  pub final_foot : TerrainBlockPos
  pub cost : ℕ

pub data TerminationReason : Type 0 where
  open_exhausted expanded_budget time_budget : TerminationReason

-- The lines of `diagnostics`, by their labels; the label of a phase's line is the phase's name.
pub data Diagnostic (D : Type 0) : Type 0 where
  terrain_bfs_solved_at_start : Diagnostic D
  -- Cost, actions, expanded states, foot; digs, places and drops.
  phase_solved :
      TerrainRouteSearchPhaseName → ℕ → ℕ → ℕ → TerrainBlockPos → ℕ → ℕ → ℕ → Diagnostic D
  terrain_bfs_solved : TerrainRouteSearchPhaseName → ℕ → ℕ → ℕ → TerrainBlockPos → Diagnostic D
  terrain_bfs_action : TerrainActionKind → ℕ → Diagnostic D
  terrain_pruned_no_progress : TerrainRouteSearchPhaseName → ℕ → ℕ → Diagnostic D
  -- Expanded states and their maximum, open nodes; foot, score and cost of the best node; the
  -- limits of depth, of the phase, and of the range and the solid blocks; why it ended.
  phase_failed :
      TerrainSearchPhase
      → ℕ
      → ℕ
      → ℕ
      → TerrainBlockPos
      → D
      → ℕ
      → ℕ
      → ℕ
      → ℕ
      → TerminationReason
      → Diagnostic D
  terrain_route_budget_exhausted terrain_route_time_budget_exhausted : ℕ → ℕ → Diagnostic D
  terrain_bfs_no_path : ℕ → ℕ → Bool → Diagnostic D

pub record TerrainRoutePlanResult (D : Type 0) : Type 0 where
  pub plan : Option TerrainRoutePlan
  pub diagnostics : List (Diagnostic D)
  pub expanded_states : ℕ
  pub budget_exhausted : Bool

-- `Set.prototype.delete`.
unfoldable pub remove : List TerrainBlockPos → TerrainBlockPos → List TerrainBlockPos
remove [] p = []
remove (q ∷ qs) p = if same_pos q p then remove qs p else q ∷ remove qs p

-- `summarizeActions`: the counts of the kinds, in the order of their first actions.
unfoldable pub count_kind :
    List (TerrainActionKind × ℕ) → TerrainActionKind → List (TerrainActionKind × ℕ)
count_kind [] k = (k, 1) ∷ []
count_kind ((l, n) ∷ r) k = if same_kind l k then (l, n + 1) ∷ r else (l, n) ∷ count_kind r k

unfoldable pub summarize_from :
    {D : Type 0} → List (TerrainActionKind × ℕ) → List TerrainRouteAction → List (Diagnostic D)
summarize_from counts (a ∷ more) = summarize_from (count_kind counts (kind a)) more
summarize_from [] [] = []
summarize_from ((k, n) ∷ r) [] = terrain_bfs_action k n ∷ summarize_from r []

-- What a search of a phase is given.
pub record PhaseInput (D : Type 0) : Type 0 where
  pub phase : TerrainSearchPhase
  pub goal : Goal D
  pub max_depth : ℕ
  pub max_planned_solid : ℕ
  pub max_planning_ms : Option ℕ

-- The variables of the search: the heap, the map, the best node and its score, and the pruned
-- successors.
pub record SearchState (D : Type 0) : Type 0 where
  pub open_nodes : List SearchNode
  pub visited : List (TerrainStateKey × ℕ)
  pub best_foot : TerrainBlockPos
  pub best_cost : ℕ
  pub best_score : D
  pub pruned : ℕ
