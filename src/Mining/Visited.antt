-- ===== src/Mining/Visited.antt =====
-- ts-core/src/runtime/transport/mining/planner.ts: `stateKey`, and the map of the states that were
-- seen.
use mc_servant.Base.{ℕ, Bool, true, false, ◌&&◌, Option, none, some, List, [], ◌∷◌, if◌then◌else◌}
use mc_servant.Mining.Position.{MineBlockPos, MineRouteDirection, same_pos, same_direction, has}
use mc_servant.Mining.Node.{ActionKind, SearchNode, fields}

-- The parts of `stateKey`: the kind of the last action counts only if air is planned.
pub record StateKey : Type 0 where
  pub foot : MineBlockPos
  pub dir : Option MineRouteDirection
  pub kind : Option ActionKind
  pub air : List MineBlockPos

abbrev pub state_key : SearchNode → StateKey
state_key node =
    let f = fields node in
    record {
      foot = f.foot;
      dir = f.last_dir;
      kind = elim f.planned_air [ [] ↦ none | p ∷ ps ↦ f.last_action_kind ];
      air = f.planned_air;
    }

abbrev pub same_kind : ActionKind → ActionKind → Bool
same_kind ActionKind.walk ActionKind.walk = true
same_kind ActionKind.drop1 ActionKind.drop1 = true
same_kind ActionKind.jump_up ActionKind.jump_up = true
same_kind ActionKind.dig_walk ActionKind.dig_walk = true
same_kind ActionKind.dig_step_down ActionKind.dig_step_down = true
same_kind ActionKind.dig_step_up ActionKind.dig_step_up = true
same_kind _ _ = false

abbrev same_option : {A : Type 0} → (A → A → Bool) → Option A → Option A → Bool
same_option same none none = true
same_option same (some a) (some b) = same a b
same_option same _ _ = false

abbrev subset : List MineBlockPos → List MineBlockPos → Bool
subset [] qs = true
subset (p ∷ ps) qs = has qs p && subset ps qs

-- Two keys are the same text: their sorted sets of positions are the same.
unfoldable pub same_key : StateKey → StateKey → Bool
unfolding same_direction
same_key k l =
    same_pos k.foot l.foot
    && same_option same_direction k.dir l.dir
    && same_option same_kind k.kind l.kind
    && subset k.air l.air
    && subset l.air k.air

-- The map `visited`, the latest entry of a key first.
unfoldable pub lookup : List (StateKey × ℕ) → StateKey → Option ℕ
lookup [] k = none
lookup ((l, c) ∷ r) k = if same_key l k then some c else lookup r k
