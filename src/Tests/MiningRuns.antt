-- ===== src/Tests/MiningRuns.antt =====
-- ts-core/src/runtime/transport/mining/planner.ts in a small world.
use mc_servant.Base.{
  arith, ℕ, ◌+◌, ◌*◌, ◌≤◌, ◌≡◌, refl, subst, ◌⊎◌, true, false, none, some, [], ◌∷◌, All, ltb,
  if◌then◌else◌,
}
use mc_servant.Mining.Position.{
  pos, MineBlockPos, same_pos, same_int, monus_int, east, has, add, add_all, suc_int, pred_int,
  leb_int, same_direction, is_opposite_direction,
}
use mc_servant.Mining.World.{
  World, is_passable, is_walkable_support, can_dig_block, has_clearance, collect_from,
  collect_clearance_digs, verify_target_is_readable, samples_clear, ray_clear_to,
  find_reachable_from, find_reachable_target,
}
use mc_servant.Mining.Node.{MineRouteAction, walk}
use mc_servant.Mining.Planner.{verified_targets, plan_mine_route}
use mc_servant.Mining.Outcome.{
  MineRouteTarget, MineRoutePlan, derive_mine_max_planned_air, or_default,
}
use mc_servant.Mining.Planner
use mc_servant.Mining.Visited
use mc_servant.Mining.Route
use mc_servant.Mining.Node
use mc_servant.Mining.Heap
use mc_servant.Mining.Heap.{push, pop, bubble_up, bubble_down}
use mc_servant.Mining.Heap.Order.{Ordered, Weak, push-Ordered}
use mc_servant.Mining.Heap.Least.{pop-least}
use mc_servant.Mining.Budget.{derive_mine_max_planned_air-bounds}
use mc_servant.Mining.Legal.Plans.{plan_mine_route-Solution, plan_mine_route-bounded}
use mc_servant.Mining.Legal.Nodes.{Solution}
use mc_servant.Mining.Legal.Targets.{Wanted}

data Cell : Type 0 where
  air stone ore : Cell

abbrev at : ℕ → ℕ → ℕ → MineBlockPos
at x y z = record { x = pos x; y = pos y; z = pos z }

-- A floor of stone at height 63, and a block of ore that is in reach from (1, 64, 0) only.
abbrev flat : World Cell ℕ
flat = record {
  read_block_at = λ p.
      some (if same_pos p (at 3 64 0) then ore else if same_int p.y (pos 63) then stone else air);
  block_name = λ c. elim c [ air ↦ "air" | stone ↦ "stone" | ore ↦ "ore" ];
  normalize_name = λ s. s;
  is_air_block = λ c. elim c [ air ↦ true | _ ↦ false ];
  is_diggable_block = λ c. elim c [ air ↦ false | _ ↦ true ];
  is_support_block = λ c. elim c [ air ↦ false | _ ↦ true ];
  less = ltb;
  plus = λ c d. c + d;
  distance = λ p q. 0;
  eye_distance = λ foot t. if same_pos foot (at 1 64 0) then 2 else 9;
  max_reach = 3;
  ray = λ foot t. [];
  mine_route_heuristic = λ foot ts. 0;
}

abbrev ore_target : MineRouteTarget
ore_target = record { position = at 3 64 0; block_name = "ore" }

abbrev the_plan : MineRoutePlan
the_plan = record {
  actions = walk (at 1 64 0) east ∷ [];
  target = at 3 64 0;
  final_foot = at 1 64 0;
  cost = 10;
}

planned :
    (plan_mine_route flat "ore" (at 0 64 0) (ore_target ∷ []) (some 9) none none).plan
    ≡ some the_plan
unfolding plan_mine_route Planner.plan_verified verified_targets Planner.sort_by_distance
    Planner.readable_targets verify_target_is_readable same_pos Planner.insert_by_distance
    Planner.plan_with find_reachable_target find_reachable_from Planner.search_loop or_default
    Heap.pop Heap.push Heap.bubble_up Planner.solution Route.find_dug_target Heap.bubble_down
    Heap.smaller Planner.cheaper derive_mine_max_planned_air Planner.enqueue Visited.lookup
    Visited.same_key Planner.solved Planner.widen add add_all has is_opposite_direction leb_int
    monus_int pred_int same_direction same_int suc_int Route.dig_step_down_successor
    Route.dig_step_up_successor Route.dig_walk_successor Route.drop_successor
    Route.expand_successors Route.find_dug_in Route.find_target
    Route.is_immediate_reverse_vertical_excavation Route.jump_successor Node.reconstruct_actions
    Node.successor Route.successors_from Route.successors_in Route.walk_successor can_dig_block
    collect_clearance_digs collect_from has_clearance is_passable is_walkable_support ray_clear_to
    samples_clear
planned = refl

plan_mine_route-Solution_example :
    Solution flat
      (at 0 64 0)
      (or_default none 60)
      (verified_targets flat "ore" (at 0 64 0) (ore_target ∷ []))
      the_plan
    × Wanted flat "ore" (ore_target ∷ []) (at 3 64 0)
plan_mine_route-Solution_example =
    plan_mine_route-Solution flat "ore" (at 0 64 0) (ore_target ∷ []) (some 9) none none planned

plan_mine_route-bounded_example :
    (plan_mine_route flat "ore" (at 0 64 0) (ore_target ∷ []) (some 9) none none).expanded_states
    ≤ or_default (some 9) 24000
plan_mine_route-bounded_example =
    plan_mine_route-bounded flat "ore" (at 0 64 0) (ore_target ∷ []) (some 9) none none

derive_mine_max_planned_air-bounds_example :
    let budget = derive_mine_max_planned_air (at 0 64 0) (at 3 60 0 ∷ []) in
    (16 ≤ budget)
    × (budget ≤ 96)
    × ((budget ≡ 96)
        ⊎ All (λ (t : MineBlockPos). monus_int (pos 64) t.y * 4 + 8 ≤ budget) (at 3 60 0 ∷ []))
derive_mine_max_planned_air-bounds_example =
    derive_mine_max_planned_air-bounds (at 0 64 0) (at 3 60 0 ∷ [])

popped : pop ltb (3 ∷ 8 ∷ 5 ∷ []) ≡ some (3, 5 ∷ 8 ∷ [])
unfolding Heap.pop Heap.bubble_down Heap.smaller
popped = refl

ltb-Weak : Weak ltb
ltb-Weak = record { asym = λ a b. ground arith; trans = λ a b c. ground arith }

none-Ordered : Ordered ltb []
none-Ordered i p v a b = cc

heaped : push ltb 5 (push ltb 8 (push ltb 3 [])) ≡ 3 ∷ 8 ∷ 5 ∷ []
unfolding Heap.push Heap.bubble_up
heaped = refl

three-Ordered : Ordered ltb (3 ∷ 8 ∷ 5 ∷ [])
three-Ordered = subst (Ordered ltb) heaped (
    push-Ordered ltb ltb-Weak 5 (push ltb 8 (push ltb 3 []))
      (push-Ordered ltb ltb-Weak 8 (push ltb 3 []) (push-Ordered ltb ltb-Weak 3 [] none-Ordered)))

pop-least_example : All (λ (y : ℕ). ltb y 3 ≡ false) (5 ∷ 8 ∷ []) × Ordered ltb (5 ∷ 8 ∷ [])
pop-least_example = pop-least ltb ltb-Weak (3 ∷ 8 ∷ 5 ∷ []) popped three-Ordered
