-- ===== src/Terrain/Visited.antt =====
-- ts-core/src/runtime/transport/terrain/router.ts: `stateKey`, and the map of the states that were
-- seen.
use mc_servant.Base.{
  ℕ, Bool, true, false, ◌&&◌, ◌==◌, Option, none, some, List, [], ◌∷◌, if◌then◌else◌,
}
use mc_servant.Mining.Position.{same_pos, has}
use mc_servant.Terrain.Action.{TerrainBlockPos, TerrainActionKind, NodeFields}

-- The parts of `stateKey`.
pub record TerrainStateKey : Type 0 where
  pub foot : TerrainBlockPos
  pub air : List TerrainBlockPos
  pub solid : List TerrainBlockPos
  pub last : Option TerrainActionKind
  pub dig : ℕ
  pub place : ℕ
  pub drop : ℕ
  pub no_progress : ℕ

abbrev pub state_key : NodeFields → TerrainStateKey
state_key f = record {
  foot = f.foot;
  air = f.planned_air;
  solid = f.planned_solid;
  last = f.last_action_kind;
  dig = f.dig_count;
  place = f.place_count;
  drop = f.drop_count;
  no_progress = f.no_progress_steps;
}

abbrev pub kind_number : TerrainActionKind → ℕ
kind_number TerrainActionKind.walk = 0
kind_number TerrainActionKind.drop1 = 1
kind_number TerrainActionKind.jump_up = 2
kind_number TerrainActionKind.place_up1 = 3
kind_number TerrainActionKind.dig_walk = 4
kind_number TerrainActionKind.dig_step_down = 5
kind_number TerrainActionKind.dig_step_up = 6
kind_number TerrainActionKind.dig_drop_self_placed = 7

unfoldable pub same_kind : TerrainActionKind → TerrainActionKind → Bool
same_kind k l = kind_number k == kind_number l

abbrev same_last : Option TerrainActionKind → Option TerrainActionKind → Bool
same_last none none = true
same_last (some k) (some l) = same_kind k l
same_last _ _ = false

abbrev subset : List TerrainBlockPos → List TerrainBlockPos → Bool
subset [] qs = true
subset (p ∷ ps) qs = has qs p && subset ps qs

-- Two keys are the same text: their sorted sets of positions are the same.
unfoldable pub same_key : TerrainStateKey → TerrainStateKey → Bool
unfolding same_kind
same_key k l =
    same_pos k.foot l.foot
    && subset k.air l.air
    && subset l.air k.air
    && subset k.solid l.solid
    && subset l.solid k.solid
    && same_last k.last l.last
    && k.dig == l.dig
    && k.place == l.place
    && k.drop == l.drop
    && k.no_progress == l.no_progress

-- The map `visited`, the latest entry of a key first.
unfoldable pub lookup : List (TerrainStateKey × ℕ) → TerrainStateKey → Option ℕ
lookup [] k = none
lookup ((l, c) ∷ r) k = if same_key l k then some c else lookup r k
