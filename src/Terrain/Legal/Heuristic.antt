-- ===== src/Terrain/Legal/Heuristic.antt =====
-- `routeHeuristic` of ts-core/src/runtime/transport/terrain/router.ts against the cost of a route.
use mc_servant.Base.{◌≤◌, ◌≡◌, refl, ap, true, none, [], ◌∷◌, arith}
use mc_servant.Mining.Outcome.{or_default}
use mc_servant.Mining.Position.{
  ℤ, suc_int, monus_int, MineRouteDirection, north, east, south, west, ahead, up,
}
use mc_servant.Terrain.Action.{TerrainBlockPos, jump_up}
use mc_servant.Terrain.World.{World, is_goal, route_heuristic}
use mc_servant.Terrain.Outcome.{TerrainRoutePlan}
use mc_servant.Terrain.Router.{RouteOptions, goal_of}
use mc_servant.Terrain.Legal.{Step, first_ground}
use mc_servant.Terrain.Legal.Routes.{Solution}

monus_int_self : (i : ℤ) → monus_int i i ≡ 0
unfolding monus_int
monus_int_self i = ground arith

monus_int-suc : (i : ℤ) → (monus_int (suc_int i) i ≡ 1) × (monus_int i (suc_int i) ≡ 0)
unfolding monus_int suc_int
monus_int-suc i = ground arith

height : (d : MineRouteDirection) (p : TerrainBlockPos) → (ahead d p).y ≡ p.y
height north p = refl
height east p = refl
height south p = refl
height west p = refl

module _ {B D : Type 0} (w : World B D) (foot : TerrainBlockPos) (d : MineRouteDirection)
    (o : RouteOptions D) where
  abbrev target : TerrainBlockPos
  target = up (ahead d foot)

  abbrev jump : TerrainRoutePlan
  jump = record { actions = jump_up target d ∷ []; final_foot = target; cost = 7 }

  jump-Solution :
      o.goal_y_range ≡ none
      → o.max_action_depth ≡ none
      → w.within (goal_of w o target).range target target ≡ true
      → Step w (first_ground w) foot (jump_up target d)
      → Solution w foot target o jump
  unfolding is_goal or_default
  jump-Solution y m h s = record {
    legal = (s, tt);
    final = refl;
    goal = ground (arith, monus_int_self target.y);
    cost = refl;
    short = ground arith;
    digs = ground arith;
    places = ground arith;
    drops = omega arith;
  }

  -- The estimate is no lower bound. Where a jump onto the block ahead is legal, and the goal is the
  -- foot on that block with no range of height, there is a route of cost 7, and the estimate at the
  -- start is at least 30.
  pub route_heuristic-too_high :
      o.goal_y_range ≡ none
      → o.max_action_depth ≡ none
      → w.within (goal_of w o target).range target target ≡ true
      → Step w (first_ground w) foot (jump_up target d)
      → (p : TerrainRoutePlan) × Solution w foot target o p
        × (p.cost ≡ 7)
        × (30 ≤ route_heuristic w (goal_of w o target) foot)
  unfolding route_heuristic
  route_heuristic-too_high y m h s =
      let e : target.y ≡ suc_int foot.y = ap suc_int (height d foot) in
      let (above, below) = monus_int-suc foot.y in
      (
        jump,
        jump-Solution y m h s,
        refl,
        ground (
          arith,
          above,
          below,
          ap (λ (i : ℤ). monus_int i foot.y) e,
          ap (λ (i : ℤ). monus_int foot.y i) e,
        ),
      )
