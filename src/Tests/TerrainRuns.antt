-- ===== src/Tests/TerrainRuns.antt =====
-- ts-core/src/runtime/transport/terrain/router.ts in small worlds.
use mc_servant.Base.{
  ℕ, ◌+◌, ◌*◌, ◌≤◌, ◌≡◌, refl, true, false, none, some, [], ◌∷◌, ltb, if◌then◌else◌,
}
use mc_servant.Mining.Position.{
  pos, same_pos, same_int, monus_int, north, east, MineBlockPos, ahead, up,
}
use mc_servant.Mining.Position
use mc_servant.Mining.Outcome.{or_default}
use mc_servant.Mining.Heap
use mc_servant.Terrain.Action.{TerrainBlockPos, walk, jump_up, place_up1, dig_walk}
use mc_servant.Terrain.Action
use mc_servant.Terrain.World.{World, is_goal, route_heuristic}
use mc_servant.Terrain.World
use mc_servant.Terrain.Candidates
use mc_servant.Terrain.Phases.{TerrainRouteBudget}
use mc_servant.Terrain.Phases
use mc_servant.Terrain.Visited
use mc_servant.Terrain.Outcome.{TerrainRoutePlan}
use mc_servant.Terrain.Outcome
use mc_servant.Terrain.Search
use mc_servant.Terrain.Router.{RouteOptions, goal_of, plan_terrain_route}
use mc_servant.Terrain.Router
use mc_servant.Terrain.Legal.{Step, first_ground}
use mc_servant.Terrain.Legal.Routes.{
  Solution, plan_terrain_route-Solution, plan_terrain_route-bounded,
}
use mc_servant.Terrain.Legal.Heuristic.{route_heuristic-too_high}

data Cell : Type 0 where
  air stone : Cell

abbrev at : ℕ → ℕ → ℕ → TerrainBlockPos
at x y z = record { x = pos x; y = pos y; z = pos z }

-- A floor of stone at height 63.
abbrev flat : World Cell ℕ
flat = record {
  read_block_at = λ p. some (if same_int p.y (pos 63) then stone else air);
  is_air_block = λ c. elim c [ air ↦ true | stone ↦ false ];
  is_diggable_block = λ c. elim c [ air ↦ false | stone ↦ true ];
  is_support_block = λ c. elim c [ air ↦ false | stone ↦ true ];
  is_self_placed_terrain_block = λ p. false;
  less = ltb;
  default_range = 1;
  floor_range = λ r. r;
  within = λ r p q. same_int p.x q.x;
  steps_outside = λ r p q. 0;
  miss = λ r p q. 0;
  steps = λ p q. 0;
  score = λ v h. v * 1000 + h;
  elapsed = λ name n. 0;
  elapsed_after = λ name. 0;
}

abbrev small : TerrainRouteBudget
small = record {
  max_total_expanded_states = some 20;
  max_phase_expanded_states = some 2;
  phase_max_expanded_states = λ name. none;
  max_planning_ms = none;
  no_progress_step_limit = none;
  phase_no_progress_step_limits = λ name. none;
}

abbrev options : RouteOptions ℕ
options = record {
  goal_range = none;
  goal_y_range = none;
  allow_place_up = none;
  allow_dig = some false;
  max_expanded_states = none;
  max_action_depth = none;
  route_profile = none;
  route_budget = small;
}

-- One block up: the bot places a block under itself.
abbrev pillar : TerrainRoutePlan
pillar = record {
  actions = place_up1 (at 0 65 0) north (at 0 64 0) (at 0 63 0) [] ∷ [];
  final_foot = at 0 65 0;
  cost = 30;
}

planned : (plan_terrain_route flat (at 0 64 0) (at 0 65 0) options).plan ≡ some pillar
unfolding plan_terrain_route is_goal same_int monus_int Router.try_phases
    Phases.create_search_phases Search.search_terrain_phase Search.search_loop Phases.expanded
    or_default Heap.pop Heap.push Heap.bubble_up Search.out_of_time Search.widen Search.enqueue
    Search.expand_successors Heap.bubble_down Heap.smaller Position.add Position.add_all
    Position.has Position.is_opposite_direction Position.pred_int Position.same_direction same_pos
    Position.suc_int Action.reconstruct_actions Candidates.candidates Candidates.candidates_from
    Candidates.candidates_in Candidates.dig_step_down_candidate Candidates.dig_step_up_candidate
    Candidates.dig_walk_candidate Candidates.drop_candidate
    Candidates.is_immediate_reverse_vertical_excavation Candidates.jump_candidate
    Candidates.place_candidate Candidates.place_digs Candidates.self_placed_drop
    Candidates.walk_candidate Phases.no_progress Router.no_path Search.cheaper Outcome.count_kind
    Search.failed Search.look Search.push_all Search.push_successor Outcome.remove Search.solved
    Search.successor_fields Outcome.summarize_from Visited.lookup Visited.same_key Visited.same_kind
    World.can_dig_block World.can_dig_self_placed_support World.collect_clearance_digs
    World.collect_from World.goal_distance_score World.has_clearance World.is_passable
    World.is_walkable_support route_heuristic
planned = refl

plan_terrain_route-Solution_example : Solution flat (at 0 64 0) (at 0 65 0) options pillar
plan_terrain_route-Solution_example =
    plan_terrain_route-Solution flat (at 0 64 0) (at 0 65 0) options planned

plan_terrain_route-bounded_example :
    (plan_terrain_route flat (at 0 64 0) (at 0 65 0) options).expanded_states ≤ 20
plan_terrain_route-bounded_example =
    plan_terrain_route-bounded flat (at 0 64 0) (at 0 65 0) options 20 refl

-- A floor of stone at height 63, and a block of stone on it.
abbrev stairs : World Cell ℕ
stairs = record flat {
  read_block_at = λ p.
      some (if same_pos p (at 1 64 0) then stone else if same_int p.y (pos 63) then stone else air);
}

onto_block :
    Step stairs (first_ground stairs) (at 0 64 0) (jump_up (up (ahead east (at 0 64 0))) east)
unfolding same_pos same_int Position.has Position.suc_int Position.pred_int
onto_block = record { leads = refl; digs = λ q e. cc; needs = tt; stands = (refl, refl, refl) }

always_within :
    stairs.within
      (goal_of stairs options (up (ahead east (at 0 64 0)))).range
      (up (ahead east (at 0 64 0)))
      (up (ahead east (at 0 64 0)))
    ≡ true
unfolding same_int Position.suc_int
always_within = refl

route_heuristic-too_high_example :
    (p : TerrainRoutePlan) × Solution stairs (at 0 64 0) (up (ahead east (at 0 64 0))) options p
    × (p.cost ≡ 7)
    × (30
        ≤ route_heuristic stairs (goal_of stairs options (up (ahead east (at 0 64 0)))) (at 0 64 0))
route_heuristic-too_high_example =
    route_heuristic-too_high stairs (at 0 64 0) east options refl refl always_within onto_block
