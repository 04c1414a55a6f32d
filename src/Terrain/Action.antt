-- ===== src/Terrain/Action.antt =====
-- ts-core/src/runtime/transport/terrain/router.ts: actions, and the nodes of the search.
use mc_servant.Base.{ℕ, Option, none, some, List, [], ◌∷◌}
use mc_servant.Mining.Position.{MineBlockPos, MineRouteDirection}

-- A position is that of the mining planner: the source declares the same fields twice.
abbrev pub TerrainBlockPos : Type 0
TerrainBlockPos = MineBlockPos

abbrev pub TerrainRouteDirection : Type 0
TerrainRouteDirection = MineRouteDirection

pub data TerrainRouteAction : Type 0 where
  walk drop1 jump_up : TerrainBlockPos → TerrainRouteDirection → TerrainRouteAction
  -- The foot after it, the direction, `placeAt`, `support` and `digs`.
  place_up1 :
      TerrainBlockPos
      → TerrainRouteDirection
      → TerrainBlockPos
      → TerrainBlockPos
      → List TerrainBlockPos
      → TerrainRouteAction
  dig_walk dig_step_down dig_step_up dig_drop_self_placed :
      TerrainBlockPos → TerrainRouteDirection → List TerrainBlockPos → TerrainRouteAction

pub data TerrainActionKind : Type 0 where
  walk drop1 jump_up place_up1 dig_walk dig_step_down dig_step_up dig_drop_self_placed :
      TerrainActionKind

abbrev pub kind : TerrainRouteAction → TerrainActionKind
kind (TerrainRouteAction.walk p d) = TerrainActionKind.walk
kind (TerrainRouteAction.drop1 p d) = TerrainActionKind.drop1
kind (TerrainRouteAction.jump_up p d) = TerrainActionKind.jump_up
kind (TerrainRouteAction.place_up1 p d q s ds) = TerrainActionKind.place_up1
kind (TerrainRouteAction.dig_walk p d ds) = TerrainActionKind.dig_walk
kind (TerrainRouteAction.dig_step_down p d ds) = TerrainActionKind.dig_step_down
kind (TerrainRouteAction.dig_step_up p d ds) = TerrainActionKind.dig_step_up
kind (TerrainRouteAction.dig_drop_self_placed p d ds) = TerrainActionKind.dig_drop_self_placed

abbrev pub to_foot : TerrainRouteAction → TerrainBlockPos
to_foot (TerrainRouteAction.walk p d) = p
to_foot (TerrainRouteAction.drop1 p d) = p
to_foot (TerrainRouteAction.jump_up p d) = p
to_foot (TerrainRouteAction.place_up1 p d q s ds) = p
to_foot (TerrainRouteAction.dig_walk p d ds) = p
to_foot (TerrainRouteAction.dig_step_down p d ds) = p
to_foot (TerrainRouteAction.dig_step_up p d ds) = p
to_foot (TerrainRouteAction.dig_drop_self_placed p d ds) = p

abbrev pub dir : TerrainRouteAction → TerrainRouteDirection
dir (TerrainRouteAction.walk p d) = d
dir (TerrainRouteAction.drop1 p d) = d
dir (TerrainRouteAction.jump_up p d) = d
dir (TerrainRouteAction.place_up1 p d q s ds) = d
dir (TerrainRouteAction.dig_walk p d ds) = d
dir (TerrainRouteAction.dig_step_down p d ds) = d
dir (TerrainRouteAction.dig_step_up p d ds) = d
dir (TerrainRouteAction.dig_drop_self_placed p d ds) = d

-- `"digs" in action ? action.digs : []`.
abbrev pub digs_of : TerrainRouteAction → List TerrainBlockPos
digs_of (TerrainRouteAction.place_up1 p d q s ds) = ds
digs_of (TerrainRouteAction.dig_walk p d ds) = ds
digs_of (TerrainRouteAction.dig_step_down p d ds) = ds
digs_of (TerrainRouteAction.dig_step_up p d ds) = ds
digs_of (TerrainRouteAction.dig_drop_self_placed p d ds) = ds
digs_of _ = []

-- `action.placeAt`, of an action that places a block.
abbrev pub place_at : TerrainRouteAction → Option TerrainBlockPos
place_at (TerrainRouteAction.place_up1 p d q s ds) = some q
place_at _ = none

-- The summands of `placeCount` and `dropCount`.
abbrev pub places : TerrainRouteAction → ℕ
places (TerrainRouteAction.place_up1 p d q s ds) = 1
places _ = 0

abbrev pub drops : TerrainRouteAction → ℕ
drops (TerrainRouteAction.drop1 p d) = 1
drops (TerrainRouteAction.dig_drop_self_placed p d ds) = 1
drops _ = 0

-- The fields of a `SearchNode` but `parent` and `action`.
pub record NodeFields : Type 0 where
  pub foot : TerrainBlockPos
  pub planned_air : List TerrainBlockPos
  pub planned_solid : List TerrainBlockPos
  pub cost : ℕ
  pub priority : ℕ
  pub last_dir : Option TerrainRouteDirection
  pub last_action_kind : Option TerrainActionKind
  pub depth : ℕ
  pub dig_count : ℕ
  pub place_count : ℕ
  pub drop_count : ℕ
  pub no_progress_steps : ℕ

-- A node has no parent and no action, or both.
pub data SearchNode : Type 0 where
  start : NodeFields → SearchNode
  next : NodeFields → SearchNode → TerrainRouteAction → SearchNode

abbrev pub fields : SearchNode → NodeFields
fields (start f) = f
fields (next f parent action) = f

abbrev pub action_of : SearchNode → Option TerrainRouteAction
action_of (start f) = none
action_of (next f parent action) = some action

-- `reconstructActions`, with the actions behind `node`.
unfoldable pub reconstruct_actions : SearchNode → List TerrainRouteAction → List TerrainRouteAction
reconstruct_actions (start f) actions = actions
reconstruct_actions (next f parent action) actions = reconstruct_actions parent (action ∷ actions)
