-- ===== src/Terrain/Legal/Budget.antt =====
-- The searches of ts-core/src/runtime/transport/terrain/router.ts keep their budgets of states.
use mc_servant.Base.{ℕ, zero, suc, ◌+◌, ◌≤◌, inl, inr, some, arith, Option-cases}
use mc_servant.Mining.Heap.{pop}
use mc_servant.Terrain.Action.{SearchNode, fields}
use mc_servant.Terrain.World.{World}
use mc_servant.Terrain.Search.{
  cheaper, look, widen, solved, failed, search_loop, search_terrain_phase, first_state,
}
use mc_servant.Terrain.Outcome.{PhaseInput, SearchState}
use mc_servant.Mining.Outcome.{min}

module _ {B D : Type 0} (w : World B D) (input : PhaseInput D) where
  search_loop-bounded :
      (max_expanded left expanded : ℕ) (s : SearchState D)
      → (search_loop w input max_expanded left expanded s).expanded_states ≤ expanded + left
  unfolding search_loop solved failed
  search_loop-bounded max_expanded zero expanded s = ground arith
  search_loop-bounded max_expanded (suc left) expanded s =
      elim (Option-cases (pop (cheaper w) s.open_nodes)) [
        | inl k ↦ ground arith
        | inr ((node, rest), k) ↦
            let s' = look w input (fields node) (record s { open_nodes = rest }) in
            ground
              (arith, search_loop-bounded max_expanded left (suc expanded) (widen w input node s'))
      ]

  pub search_terrain_phase-bounded :
      (m : ℕ) (node : SearchNode) → (search_terrain_phase w input (some m) node).expanded_states ≤ m
  unfolding search_terrain_phase
  search_terrain_phase-bounded m node =
      let max_expanded : ℕ = min input.phase.max_expanded_states m in
      omega (
        arith,
        search_loop-bounded max_expanded max_expanded 0 (first_state w input node),
        min-le m,
      )
    where
      min-le : (n : ℕ) → min input.phase.max_expanded_states n ≤ n
      min-le n = ground arith
