-- ===== src/Terrain/Router.antt =====
-- ts-core/src/runtime/transport/terrain/router.ts: `planTerrainRoute`.
use mc_servant.Base.{
  ℕ, ◌+◌, ◌-◌, Bool, true, false, ◌||◌, Option, none, some, List, [], ◌∷◌, ◌++◌, if◌then◌else◌,
  length, leb,
}
use mc_servant.Mining.Outcome.{max, or_default}
use mc_servant.Terrain.Action.{TerrainBlockPos, SearchNode, start}
use mc_servant.Terrain.World.{World, Goal, is_goal, route_heuristic, abs_difference}
use mc_servant.Terrain.Candidates.{TerrainSearchPhase}
use mc_servant.Terrain.Phases.{
  TerrainRouteProfile, normal, TerrainRouteBudget, create_search_phases,
}
use mc_servant.Terrain.Search.{search_terrain_phase}
use mc_servant.Terrain.Outcome.{
  Diagnostic, terrain_bfs_solved_at_start, terrain_route_budget_exhausted,
  terrain_route_time_budget_exhausted, terrain_bfs_no_path, TerrainRoutePlanResult, PhaseInput,
}

-- The optional inputs of `planTerrainRoute`.
pub record RouteOptions (D : Type 0) : Type 0 where
  pub goal_range : Option D
  pub goal_y_range : Option D
  pub allow_place_up : Option Bool
  pub allow_dig : Option Bool
  pub max_expanded_states : Option ℕ
  pub max_action_depth : Option ℕ
  pub route_profile : Option TerrainRouteProfile
  pub route_budget : TerrainRouteBudget

abbrev pub get_or : {A : Type 0} → Option A → A → A
get_or none a = a
get_or (some a) b = a

module _ {B D : Type 0} (w : World B D) where
  abbrev pub goal_of : RouteOptions D → TerrainBlockPos → Goal D
  goal_of o target = record {
    target_foot = target;
    range = get_or o.goal_range w.default_range;
    y_range = elim o.goal_y_range [ none ↦ 0 | some r ↦ w.floor_range r ];
  }

  abbrev pub max_depth_of : RouteOptions D → TerrainBlockPos → TerrainBlockPos → ℕ
  max_depth_of o start_foot target =
      or_default o.max_action_depth
        (max 80 (w.steps target start_foot + abs_difference target start_foot + 24))

  abbrev pub max_planned_solid_of : TerrainBlockPos → TerrainBlockPos → ℕ
  max_planned_solid_of start_foot target = max 160 (abs_difference target start_foot + 16)

  abbrev pub phases_of :
      RouteOptions D → TerrainBlockPos → TerrainBlockPos → List TerrainSearchPhase
  phases_of o start_foot target =
      create_search_phases (get_or o.route_profile normal) o.max_expanded_states o.route_budget
        (max_planned_solid_of start_foot target) (get_or o.allow_dig true)
        (get_or o.allow_place_up true)

  abbrev pub start_node : Goal D → TerrainBlockPos → SearchNode
  start_node goal start_foot = start (record {
    foot = start_foot;
    planned_air = [];
    planned_solid = [];
    cost = 0;
    priority = route_heuristic w goal start_foot;
    last_dir = none;
    last_action_kind = none;
    depth = 0;
    dig_count = 0;
    place_count = 0;
    drop_count = 0;
    no_progress_steps = 0;
  })

  -- The end after all phases, or after a `break`; `count` is `phases.length`.
  unfoldable pub no_path : List (Diagnostic D) → ℕ → ℕ → Bool → TerrainRoutePlanResult D
  no_path diagnostics count total exhausted = record {
    plan = none;
    diagnostics = diagnostics ++ terrain_bfs_no_path total count exhausted ∷ [];
    expanded_states = total;
    budget_exhausted = exhausted;
  }

  -- `budget.maxTotalExpandedStates - totalExpanded`, if there is a maximum.
  abbrev pub remaining_of : Option ℕ → ℕ → Option ℕ
  remaining_of none total = none
  remaining_of (some m) total = some (m - total)

  -- The maximum, if it is reached.
  abbrev pub reached : Option ℕ → ℕ → Option ℕ
  reached none total = none
  reached (some m) total = if leb m total then some m else none

  abbrev pub phase_input :
      RouteOptions D → TerrainBlockPos → TerrainBlockPos → TerrainSearchPhase → PhaseInput D
  phase_input o start_foot target phase = record {
    phase = phase;
    goal = goal_of o target;
    max_depth = max_depth_of o start_foot target;
    max_planned_solid = max_planned_solid_of start_foot target;
    max_planning_ms = o.route_budget.max_planning_ms;
  }

  -- The loop over the phases; `input` is what the search of a phase is given.
  unfoldable pub try_phases :
      (TerrainSearchPhase → PhaseInput D)
      → SearchNode
      → Option ℕ
      → Option ℕ
      → ℕ
      → List TerrainSearchPhase
      → List (Diagnostic D)
      → ℕ
      → Bool
      → TerrainRoutePlanResult D
  try_phases input node max_ms max_total count [] diagnostics total exhausted =
      no_path diagnostics count total exhausted
  try_phases input node max_ms max_total count (phase ∷ phases) diagnostics total exhausted =
      elim (reached max_total total) [
        | some m ↦
            no_path (diagnostics ++ terrain_route_budget_exhausted total m ∷ []) count total true
        | none ↦
            let r = search_terrain_phase w (input phase) (remaining_of max_total total) node in
            let total' = total + r.expanded_states in
            let exhausted' = exhausted || r.budget_exhausted in
            let diagnostics' = diagnostics ++ r.diagnostics in
            elim r.plan [
              | some p ↦ record {
                plan = some p;
                diagnostics = diagnostics';
                expanded_states = total';
                budget_exhausted = exhausted';
              }
              | none ↦ elim (reached max_ms (w.elapsed_after phase.name)) [
                | some ms ↦
                    no_path
                      (diagnostics'
                        ++ terrain_route_time_budget_exhausted (w.elapsed_after phase.name) ms ∷ [])
                      count total' exhausted'
                | none ↦
                    try_phases input node max_ms max_total count phases diagnostics' total'
                      exhausted'
              ]
            ]
      ]

  -- `planTerrainRoute`.
  unfoldable pub plan_terrain_route :
      TerrainBlockPos → TerrainBlockPos → RouteOptions D → TerrainRoutePlanResult D
  plan_terrain_route start_foot target o =
      let goal = goal_of o target in
      let phases = phases_of o start_foot target in
      if is_goal w goal start_foot
      then record {
        plan = some (record { actions = []; final_foot = start_foot; cost = 0 });
        diagnostics = terrain_bfs_solved_at_start ∷ [];
        expanded_states = 0;
        budget_exhausted = false;
      }
      else try_phases (phase_input o start_foot target) (start_node goal start_foot)
          o.route_budget.max_planning_ms o.route_budget.max_total_expanded_states (length phases)
          phases [] 0 false
