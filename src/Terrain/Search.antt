-- ===== src/Terrain/Search.antt =====
-- ts-core/src/runtime/transport/terrain/router.ts: `searchTerrainPhase`.
use mc_servant.Base.{
  ℕ, zero, suc, ◌+◌, ◌%◌, Bool, true, false, not, ◌&&◌, ◌||◌, Option, none, some, List, [], ◌∷◌,
  ◌++◌, if◌then◌else◌, length, ltb, leb, ◌==◌,
}
use mc_servant.Mining.Position.{add, add_all}
use mc_servant.Mining.Heap.{push, pop}
use mc_servant.Mining.Outcome.{min}
use mc_servant.Terrain.Action.{
  TerrainRouteAction, kind, to_foot, dir, digs_of, place_at, places, drops, NodeFields, SearchNode,
  next, fields, reconstruct_actions,
}
use mc_servant.Terrain.World.{World, Goal, is_goal, route_heuristic, goal_distance_score}
use mc_servant.Terrain.Candidates.{Candidate, candidates}
use mc_servant.Terrain.Visited.{TerrainStateKey, state_key, lookup}
use mc_servant.Terrain.Outcome.{
  remove, summarize_from, TerminationReason, TerrainRoutePlanResult, PhaseInput, SearchState,
  open_exhausted, expanded_budget, time_budget, phase_solved, terrain_bfs_solved,
  terrain_pruned_no_progress, phase_failed,
}

module _ {B D : Type 0} (w : World B D) where
  -- The fields of the node that `pushSuccessor` pushes.
  unfoldable pub successor_fields : Goal D → NodeFields → TerrainRouteAction → ℕ → ℕ → NodeFields
  successor_fields goal f action cost no_progress_steps =
      let dug = add_all f.planned_air (digs_of action) in
      record {
        foot = to_foot action;
        planned_air = elim (place_at action) [ none ↦ dug | some p ↦ remove dug p ];
        planned_solid = elim (place_at action) [
          | none ↦ f.planned_solid
          | some p ↦ add f.planned_solid p
        ];
        cost = f.cost + cost;
        priority = f.cost + cost + route_heuristic w goal (to_foot action);
        last_dir = some (dir action);
        last_action_kind = some (kind action);
        depth = suc f.depth;
        dig_count = f.dig_count + length (digs_of action);
        place_count = f.place_count + places action;
        drop_count = f.drop_count + drops action;
        no_progress_steps = no_progress_steps;
      }

  -- `pushSuccessor`: the node, or `none` if it is pruned.
  unfoldable pub push_successor : PhaseInput D → SearchNode → Candidate → Option SearchNode
  push_successor input parent (action, cost) =
      let f = fields parent in
      let progress =
        w.less (goal_distance_score w input.goal (to_foot action))
          (goal_distance_score w input.goal f.foot) in
      let steps : ℕ = if progress then 0 else f.no_progress_steps + 1 in
      if ltb input.phase.max_no_progress_steps steps
      then none
      else some (next (successor_fields input.goal f action cost steps) parent action)

  -- The successors, and how many were pruned.
  unfoldable pub push_all : PhaseInput D → SearchNode → List Candidate → List SearchNode × ℕ
  push_all input parent [] = ([], 0)
  push_all input parent (c ∷ cs) =
      let (nodes, pruned) = push_all input parent cs in
      elim (push_successor input parent c) [
        | none ↦ (nodes, suc pruned)
        | some node ↦ (node ∷ nodes, pruned)
      ]

  unfoldable pub expand_successors : PhaseInput D → SearchNode → List SearchNode × ℕ
  expand_successors input node = push_all input node (candidates w input.phase node)

  -- The comparison of the heap, as `compare(left, right) < 0`.
  unfoldable pub cheaper : SearchNode → SearchNode → Bool
  cheaper left right =
      let l = fields left in
      let r = fields right in
      if l.priority == r.priority then ltb l.cost r.cost else ltb l.priority r.priority

  -- The loop over the successors of a node: the heap and the map after it.
  unfoldable pub enqueue :
      List SearchNode
      → List SearchNode
      → List (TerrainStateKey × ℕ)
      → List SearchNode × List (TerrainStateKey × ℕ)
  enqueue [] open_nodes visited = (open_nodes, visited)
  enqueue (s ∷ ss) open_nodes visited =
      let f = fields s in
      let seen : Bool = elim (lookup visited (state_key f)) [
        | none ↦ false
        | some c ↦ leb c f.cost
      ] in
      enqueue ss (if seen then open_nodes else push cheaper s open_nodes)
        (if seen then visited else (state_key f, f.cost) ∷ visited)

  -- The best node after a look at a node.
  unfoldable pub look : PhaseInput D → NodeFields → SearchState D → SearchState D
  look input f s =
      let score = goal_distance_score w input.goal f.foot in
      let same : Bool = not (w.less score s.best_score) && not (w.less s.best_score score) in
      if w.less score s.best_score || (same && ltb f.cost s.best_cost)
      then record s { best_foot = f.foot; best_cost = f.cost; best_score = score }
      else s

  -- The four guards with `continue`, and the expansion of a node.
  unfoldable pub widen : PhaseInput D → SearchNode → SearchState D → SearchState D
  widen input node s =
      let f = fields node in
      if leb input.max_depth f.depth
        || leb 48 (length f.planned_air)
        || leb input.max_planned_solid (length f.planned_solid)
        || leb 192 (length f.planned_air + length f.planned_solid)
      then s
      else let (nodes, pruned) = expand_successors input node in
        let (open', visited') = enqueue nodes s.open_nodes s.visited in
        record s { open_nodes = open'; visited = visited'; pruned = s.pruned + pruned }

  unfoldable pub solved : PhaseInput D → SearchNode → ℕ → TerrainRoutePlanResult D
  solved input node expanded =
      let f = fields node in
      let actions = reconstruct_actions node [] in
      record {
        plan = some (record { actions = actions; final_foot = f.foot; cost = f.cost });
        diagnostics =
            phase_solved input.phase.name f.cost (length actions) expanded f.foot f.dig_count
              f.place_count f.drop_count
            ∷ terrain_bfs_solved input.phase.name f.cost (length actions) expanded f.foot
            ∷ summarize_from [] actions;
        expanded_states = expanded;
        budget_exhausted = false;
      }

  unfoldable pub failed :
      PhaseInput D → TerminationReason → ℕ → ℕ → SearchState D → TerrainRoutePlanResult D
  failed input reason max_expanded expanded s = record {
    plan = none;
    diagnostics =
        (if ltb 0 s.pruned
          then terrain_pruned_no_progress input.phase.name s.pruned
              input.phase.max_no_progress_steps
            ∷ []
          else [])
        ++ phase_failed input.phase expanded max_expanded (length s.open_nodes) s.best_foot
            s.best_score s.best_cost input.max_depth input.goal.y_range input.max_planned_solid
            reason
          ∷ [];
    expanded_states = expanded;
    budget_exhausted = elim reason [ open_exhausted ↦ false | _ ↦ true ];
  }

  -- The time budget, which is looked at after every 64 states.
  unfoldable pub out_of_time : PhaseInput D → ℕ → Bool
  out_of_time input expanded = elim input.max_planning_ms [
    | none ↦ false
    | some ms ↦ ltb 0 expanded && expanded % 64 == 0 && leb ms (w.elapsed input.phase.name expanded)
  ]

  -- The `while` loop; `left` is `maxExpandedStates - expanded`.
  unfoldable pub search_loop : PhaseInput D → ℕ → ℕ → ℕ → SearchState D → TerrainRoutePlanResult D
  search_loop input max_expanded zero expanded s = elim s.open_nodes [
    | [] ↦ failed input open_exhausted max_expanded expanded s
    | n ∷ ns ↦ failed input expanded_budget max_expanded expanded s
  ]
  search_loop input max_expanded (suc left) expanded s = elim (pop cheaper s.open_nodes) [
    | none ↦ failed input open_exhausted max_expanded expanded s
    | some (node, rest) ↦ elim (out_of_time input expanded) [
      | true ↦ failed input time_budget max_expanded expanded s
      | false ↦
          let s' = look input (fields node) (record s { open_nodes = rest }) in
          elim (is_goal w input.goal (fields node).foot) [
            | true ↦ solved input node (suc expanded)
            | false ↦ search_loop input max_expanded left (suc expanded) (widen input node s')
          ]
    ]
  ]

  abbrev pub first_state : PhaseInput D → SearchNode → SearchState D
  first_state input start_node =
      let f = fields start_node in
      record {
        open_nodes = push cheaper start_node [];
        visited = (state_key f, 0) ∷ [];
        best_foot = f.foot;
        best_cost = f.cost;
        best_score = goal_distance_score w input.goal f.foot;
        pruned = 0;
      }

  -- `searchTerrainPhase`; `remaining` is `remainingExpandedStates`.
  unfoldable pub search_terrain_phase :
      PhaseInput D → Option ℕ → SearchNode → TerrainRoutePlanResult D
  search_terrain_phase input remaining start_node =
      let max_expanded : ℕ = elim remaining [
        | none ↦ input.phase.max_expanded_states
        | some n ↦ min input.phase.max_expanded_states n
      ] in
      search_loop input max_expanded max_expanded 0 (first_state input start_node)
