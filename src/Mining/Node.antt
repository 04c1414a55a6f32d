-- ===== src/Mining/Node.antt =====
-- ts-core/src/runtime/transport/mining/planner.ts: actions, and the nodes of the search.
use mc_servant.Base.{ℕ, suc, ◌+◌, Option, none, some, List, [], ◌∷◌}
use mc_servant.Mining.Position.{MineBlockPos, MineRouteDirection, add_all}

pub data MineRouteAction : Type 0 where
  walk drop1 jump_up : MineBlockPos → MineRouteDirection → MineRouteAction
  dig_walk dig_step_down dig_step_up :
      MineBlockPos → MineRouteDirection → List MineBlockPos → MineRouteAction

pub data ActionKind : Type 0 where
  walk drop1 jump_up dig_walk dig_step_down dig_step_up : ActionKind

abbrev pub kind : MineRouteAction → ActionKind
kind (MineRouteAction.walk p d) = ActionKind.walk
kind (MineRouteAction.drop1 p d) = ActionKind.drop1
kind (MineRouteAction.jump_up p d) = ActionKind.jump_up
kind (MineRouteAction.dig_walk p d ds) = ActionKind.dig_walk
kind (MineRouteAction.dig_step_down p d ds) = ActionKind.dig_step_down
kind (MineRouteAction.dig_step_up p d ds) = ActionKind.dig_step_up

abbrev pub to_foot : MineRouteAction → MineBlockPos
to_foot (MineRouteAction.walk p d) = p
to_foot (MineRouteAction.drop1 p d) = p
to_foot (MineRouteAction.jump_up p d) = p
to_foot (MineRouteAction.dig_walk p d ds) = p
to_foot (MineRouteAction.dig_step_down p d ds) = p
to_foot (MineRouteAction.dig_step_up p d ds) = p

abbrev pub dir : MineRouteAction → MineRouteDirection
dir (MineRouteAction.walk p d) = d
dir (MineRouteAction.drop1 p d) = d
dir (MineRouteAction.jump_up p d) = d
dir (MineRouteAction.dig_walk p d ds) = d
dir (MineRouteAction.dig_step_down p d ds) = d
dir (MineRouteAction.dig_step_up p d ds) = d

-- `"digs" in action ? action.digs : []`.
abbrev pub digs_of : MineRouteAction → List MineBlockPos
digs_of (MineRouteAction.dig_walk p d ds) = ds
digs_of (MineRouteAction.dig_step_down p d ds) = ds
digs_of (MineRouteAction.dig_step_up p d ds) = ds
digs_of _ = []

-- The fields of a `SearchNode` but `parent` and `action`.
pub record NodeFields : Type 0 where
  pub foot : MineBlockPos
  pub planned_air : List MineBlockPos
  pub cost : ℕ
  pub last_dir : Option MineRouteDirection
  pub last_action_kind : Option ActionKind
  pub depth : ℕ

-- A node has no parent and no action, or both.
pub data SearchNode : Type 0 where
  start : NodeFields → SearchNode
  next : NodeFields → SearchNode → MineRouteAction → SearchNode

abbrev pub fields : SearchNode → NodeFields
fields (start f) = f
fields (next f parent action) = f

abbrev pub action_of : SearchNode → Option MineRouteAction
action_of (start f) = none
action_of (next f parent action) = some action

abbrev pub start_node : MineBlockPos → SearchNode
start_node foot = start (record {
  foot = foot;
  planned_air = [];
  cost = 0;
  last_dir = none;
  last_action_kind = none;
  depth = 0;
})

-- The node that `pushSuccessor` pushes.
unfoldable pub successor : SearchNode → MineRouteAction → ℕ → SearchNode
successor parent action cost =
    next
      (record {
        foot = to_foot action;
        planned_air = add_all (fields parent).planned_air (digs_of action);
        cost = (fields parent).cost + cost;
        last_dir = some (dir action);
        last_action_kind = some (kind action);
        depth = suc (fields parent).depth;
      })
      parent action

-- `reconstructActions`, with the actions behind `node`.
unfoldable pub reconstruct_actions : SearchNode → List MineRouteAction → List MineRouteAction
reconstruct_actions (start f) actions = actions
reconstruct_actions (next f parent action) actions = reconstruct_actions parent (action ∷ actions)
