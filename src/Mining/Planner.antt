-- ===== src/Mining/Planner.antt =====
-- ts-core/src/runtime/transport/mining/planner.ts: `planMineRoute`.
use Prim.Native.String.{String}
use mc_servant.Base.{
  ℕ, zero, suc, Bool, true, false, not, ◌&&◌, Option, none, some, List, [], ◌∷◌, ◌++◌,
  if◌then◌else◌, length, ltb, leb,
}
use mc_servant.Mining.Position.{MineBlockPos}
use mc_servant.Mining.World.{World, verify_target_is_readable, find_reachable_target}
use mc_servant.Mining.Route.{expand_successors, find_dug_target}
use mc_servant.Mining.Node.{
  ActionKind, SearchNode, fields, action_of, start_node, reconstruct_actions,
}
use mc_servant.Mining.Heap.{push, pop}
use mc_servant.Mining.Outcome.{
  MineRouteTarget, Diagnostic, mine_bfs_targets, mine_bfs_budget, mine_bfs_solved_at_start,
  mine_bfs_solved, mine_bfs_dig_step_down_used, mine_bfs_dig_step_up_used, mine_bfs_no_path,
  MineRoutePlanResult, Limits, derive_mine_max_planned_air, or_default, count_kind, used,
}
use mc_servant.Mining.Visited.{StateKey, state_key, lookup}

module _ {B D : Type 0} (w : World B D) where
  -- The comparison of the heap, as `compare(left, right) < 0`.
  unfoldable pub cheaper : List MineBlockPos → SearchNode → SearchNode → Bool
  cheaper targets left right =
      let l = fields left in
      let r = fields right in
      let left_priority = w.plus l.cost (w.mine_route_heuristic l.foot targets) in
      let right_priority = w.plus r.cost (w.mine_route_heuristic r.foot targets) in
      if not (w.less left_priority right_priority) && not (w.less right_priority left_priority)
      then ltb l.cost r.cost
      else w.less left_priority right_priority

  -- The loop over the successors of a node: the heap and the map after it.
  unfoldable pub enqueue :
      List MineBlockPos
      → List SearchNode
      → List SearchNode
      → List (StateKey × ℕ)
      → List SearchNode × List (StateKey × ℕ)
  enqueue targets [] open_nodes visited = (open_nodes, visited)
  enqueue targets (s ∷ ss) open_nodes visited =
      let seen : Bool = elim (lookup visited (state_key s)) [
        | none ↦ false
        | some c ↦ leb c (fields s).cost
      ] in
      enqueue targets ss (if seen then open_nodes else push (cheaper targets) s open_nodes)
        (if seen then visited else (state_key s, (fields s).cost) ∷ visited)

  unfoldable pub widen :
      Limits
      → List MineBlockPos
      → SearchNode
      → List SearchNode
      → List (StateKey × ℕ)
      → List SearchNode × List (StateKey × ℕ)
  widen limits targets node open_nodes visited =
      if leb limits.max_depth (fields node).depth
      then (open_nodes, visited)
      else if leb limits.max_planned_air (length (fields node).planned_air)
      then (open_nodes, visited)
      else enqueue targets (expand_successors w node) open_nodes visited

  -- The target that ends the search at a node, and whether its last action digs it.
  unfoldable pub solution : List MineBlockPos → SearchNode → Option (Bool × MineBlockPos)
  solution targets node = elim (find_dug_target (action_of node) targets) [
    | some t ↦ some (true, t)
    | none ↦ elim (find_reachable_target w (fields node).foot (fields node).planned_air targets) [
      | some t ↦ some (false, t)
      | none ↦ none
    ]
  ]

  unfoldable pub solved :
      List Diagnostic → Bool × MineBlockPos → SearchNode → ℕ → MineRoutePlanResult
  solved diagnostics (by_dig, t) node expanded =
      let actions = reconstruct_actions node [] in
      let f = fields node in
      record {
        plan = some (record { actions = actions; target = t; final_foot = f.foot; cost = f.cost });
        diagnostics =
            diagnostics
            ++ (mine_bfs_solved by_dig f.cost (length actions) expanded t f.foot ∷ []
                ++ (used mine_bfs_dig_step_down_used (count_kind ActionKind.dig_step_down actions)
                    ++ used mine_bfs_dig_step_up_used (count_kind ActionKind.dig_step_up actions)));
        expanded_states = expanded;
      }

  abbrev pub no_path : List Diagnostic → ℕ → MineRoutePlanResult
  no_path diagnostics expanded = record {
    plan = none;
    diagnostics = diagnostics ++ mine_bfs_no_path expanded ∷ [];
    expanded_states = expanded;
  }

  -- The `while` loop; `left` is `maxExpanded - expanded`.
  unfoldable pub search_loop :
      Limits
      → List Diagnostic
      → List MineBlockPos
      → ℕ
      → ℕ
      → List SearchNode
      → List (StateKey × ℕ)
      → MineRoutePlanResult
  search_loop limits diagnostics targets zero expanded open_nodes visited =
      no_path diagnostics expanded
  search_loop limits diagnostics targets (suc left) expanded open_nodes visited =
      elim (pop (cheaper targets) open_nodes) [
        | none ↦ no_path diagnostics expanded
        | some (node, rest) ↦ elim (solution targets node) [
          | some t ↦ solved diagnostics t node (suc expanded)
          | none ↦
              let (open', visited') = widen limits targets node rest visited in
              search_loop limits diagnostics targets left (suc expanded) open' visited'
        ]
      ]

  -- `filter`, and the positions.
  unfoldable pub readable_targets : String → List MineRouteTarget → List MineBlockPos
  readable_targets block_name [] = []
  readable_targets block_name (t ∷ ts) =
      let rest = readable_targets block_name ts in
      if verify_target_is_readable w block_name t.position t.block_name
      then t.position ∷ rest
      else rest

  unfoldable pub insert_by_distance :
      MineBlockPos → MineBlockPos → List MineBlockPos → List MineBlockPos
  insert_by_distance foot t [] = t ∷ []
  insert_by_distance foot t (u ∷ us) =
      let rest = insert_by_distance foot t us in
      if w.less (w.distance foot u) (w.distance foot t) then u ∷ rest else t ∷ u ∷ us

  -- The stable `sort` by the distance from the start.
  unfoldable pub sort_by_distance : MineBlockPos → List MineBlockPos → List MineBlockPos
  sort_by_distance foot [] = []
  sort_by_distance foot (t ∷ ts) = insert_by_distance foot t (sort_by_distance foot ts)

  unfoldable pub verified_targets : String → MineBlockPos → List MineRouteTarget → List MineBlockPos
  verified_targets block_name start_foot targets =
      sort_by_distance start_foot (readable_targets block_name targets)

  -- From the budgets on, with at least one target.
  unfoldable pub plan_with : MineBlockPos → Limits → List MineBlockPos → MineRoutePlanResult
  plan_with start_foot limits targets =
      let diagnostics =
        mine_bfs_targets (length targets)
        ∷ mine_bfs_budget limits.max_expanded limits.max_depth limits.max_planned_air
        ∷ [] in
      let node = start_node start_foot in
      elim (find_reachable_target w start_foot [] targets) [
        | some t ↦ record {
          plan = some (record { actions = []; target = t; final_foot = start_foot; cost = 0 });
          diagnostics = diagnostics ++ mine_bfs_solved_at_start t ∷ [];
          expanded_states = 0;
        }
        | none ↦
            search_loop limits diagnostics targets limits.max_expanded 0
              (push (cheaper targets) node []) ((state_key node, 0) ∷ [])
      ]

  -- The early return, or the search with its budgets.
  unfoldable pub plan_verified :
      MineBlockPos → Option ℕ → Option ℕ → Option ℕ → List MineBlockPos → MineRoutePlanResult
  plan_verified start_foot max_expanded max_depth max_air [] = record {
    plan = none;
    diagnostics = mine_bfs_targets 0 ∷ [];
    expanded_states = 0;
  }
  plan_verified start_foot max_expanded max_depth max_air (t ∷ ts) =
      plan_with start_foot
        (record {
          max_expanded = or_default max_expanded 24000;
          max_depth = or_default max_depth 60;
          max_planned_air = or_default max_air (derive_mine_max_planned_air start_foot (t ∷ ts));
        })
        (t ∷ ts)

  -- `planMineRoute`.
  unfoldable pub plan_mine_route :
      String
      → MineBlockPos
      → List MineRouteTarget
      → Option ℕ
      → Option ℕ
      → Option ℕ
      → MineRoutePlanResult
  plan_mine_route block_name start_foot targets max_expanded max_depth max_air =
      plan_verified start_foot max_expanded max_depth max_air
        (verified_targets block_name start_foot targets)
