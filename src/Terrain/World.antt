-- ===== src/Terrain/World.antt =====
-- ts-core/src/runtime/transport/terrain/router.ts: what the router reads of the world.
use mc_servant.Base.{
  ℕ, zero, suc, ◌+◌, ◌-◌, ◌*◌, Bool, true, false, ◌&&◌, ◌||◌, Option, none, some, List, [], ◌∷◌,
  if◌then◌else◌, leb, ltb,
}
use mc_servant.Mining.Position.{up, has, add, monus_int}
use mc_servant.Terrain.Action.{TerrainBlockPos, NodeFields}

pub data TerrainRouteSearchPhaseName : Type 0 where
  natural light_dig light_place relaxed : TerrainRouteSearchPhaseName

-- The inputs `bot` and `facts`, the blocks that the bot has placed itself, the double arithmetic
-- and the clock. `B` are the blocks of the bot's world; `D` are doubles.
pub record World (B D : Type 0) : Type 0 where
  pub read_block_at : TerrainBlockPos → Option B
  pub is_air_block : B → Bool
  pub is_diggable_block : B → Bool
  pub is_support_block : B → Bool
  pub is_self_placed_terrain_block : TerrainBlockPos → Bool
  pub less : D → D → Bool
  -- The range 1.5, and `Math.max(0, Math.floor(d))`.
  pub default_range : D
  pub floor_range : D → ℕ
  -- Of the horizontal distance `h` of two positions and a range: `h <= range`,
  -- `Math.max(0, Math.ceil(h - range))`, `Math.max(0, h - range)` and `Math.ceil(h)`.
  pub within : D → TerrainBlockPos → TerrainBlockPos → Bool
  pub steps_outside : D → TerrainBlockPos → TerrainBlockPos → ℕ
  pub miss : D → TerrainBlockPos → TerrainBlockPos → D
  pub steps : TerrainBlockPos → TerrainBlockPos → ℕ
  -- `vertical * 1000 + horizontal`.
  pub score : ℕ → D → D
  -- `Date.now() - startedAtMs`, in a phase after a number of states, and after the phase.
  pub elapsed : TerrainRouteSearchPhaseName → ℕ → ℕ
  pub elapsed_after : TerrainRouteSearchPhaseName → ℕ

abbrev pub abs_difference : TerrainBlockPos → TerrainBlockPos → ℕ
abs_difference p q = monus_int p.y q.y + monus_int q.y p.y

-- Where a search goes to: the foot and the two ranges.
pub record Goal (D : Type 0) : Type 0 where
  pub target_foot : TerrainBlockPos
  pub range : D
  pub y_range : ℕ

module _ {B D : Type 0} (w : World B D) where
  unfoldable pub is_goal : Goal D → TerrainBlockPos → Bool
  is_goal goal current =
      w.within goal.range current goal.target_foot
      && leb (abs_difference current goal.target_foot) goal.y_range

  unfoldable pub route_heuristic : Goal D → TerrainBlockPos → ℕ
  route_heuristic goal current =
      let horizontal_steps = w.steps_outside goal.range current goal.target_foot in
      let above = monus_int goal.target_foot.y current.y in
      let below = monus_int current.y goal.target_foot.y in
      let vertical_cost =
        if leb (above + below) goal.y_range
        then 0
        else if ltb 0 above
        then (above - goal.y_range) * (24 + 6)
        else (below - goal.y_range) * 7 in
      horizontal_steps * 6 + vertical_cost

  unfoldable pub goal_distance_score : Goal D → TerrainBlockPos → D
  goal_distance_score goal current =
      w.score (abs_difference current goal.target_foot - goal.y_range)
        (w.miss goal.range current goal.target_foot)

  unfoldable pub is_passable : TerrainBlockPos → NodeFields → Bool
  is_passable p node =
      if has node.planned_solid p
      then false
      else if has node.planned_air p
      then true
      else elim (w.read_block_at p) [ none ↦ false | some b ↦ w.is_air_block b ]

  unfoldable pub is_walkable_support : TerrainBlockPos → NodeFields → Bool
  is_walkable_support p node =
      if has node.planned_solid p
      then true
      else if has node.planned_air p
      then false
      else elim (w.read_block_at p) [ none ↦ false | some b ↦ w.is_support_block b ]

  unfoldable pub can_dig_block : TerrainBlockPos → NodeFields → Bool
  can_dig_block p node =
      if has node.planned_air p || has node.planned_solid p
      then false
      else elim (w.read_block_at p) [ none ↦ false | some b ↦ w.is_diggable_block b ]

  unfoldable pub can_dig_self_placed_support : TerrainBlockPos → NodeFields → Bool
  can_dig_self_placed_support p node =
      if has node.planned_air p || has node.planned_solid p
      then false
      else if w.is_self_placed_terrain_block p
      then elim (w.read_block_at p) [
        | none ↦ false
        | some b ↦ w.is_support_block b && w.is_diggable_block b
      ]
      else false

  -- The foot and the blocks above it.
  abbrev pub clearance_positions : TerrainBlockPos → ℕ → List TerrainBlockPos
  clearance_positions foot zero = []
  clearance_positions foot (suc height) = foot ∷ clearance_positions (up foot) height

  abbrev pub every_passable : List TerrainBlockPos → NodeFields → Bool
  every_passable [] node = true
  every_passable (p ∷ ps) node = is_passable p node && every_passable ps node

  unfoldable pub has_clearance : TerrainBlockPos → ℕ → NodeFields → Bool
  has_clearance foot height node = every_passable (clearance_positions foot height) node

  -- The loop of `collectClearanceDigs`, from the set `seen` on; a member added again changes nothing.
  unfoldable pub collect_from :
      List TerrainBlockPos → List TerrainBlockPos → NodeFields → Option (List TerrainBlockPos)
  collect_from seen [] node = some []
  collect_from seen (p ∷ ps) node =
      let rest = collect_from (add seen p) ps node in
      if has seen p
      then rest
      else if is_passable p node
      then rest
      else if can_dig_block p node
      then elim rest [ none ↦ none | some digs ↦ some (p ∷ digs) ]
      else none

  unfoldable pub collect_clearance_digs :
      List TerrainBlockPos → NodeFields → Option (List TerrainBlockPos)
  collect_clearance_digs = collect_from []
