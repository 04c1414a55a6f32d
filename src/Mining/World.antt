-- ===== src/Mining/World.antt =====
-- ts-core/src/runtime/transport/mining/planner.ts: what the planner reads of the world.
use Prim.Native.String.{String}
use text.Mathlib.Text.{◌==◌ as str_eq}
use mc_servant.Base.{
  ℕ, zero, suc, Bool, true, false, not, ◌&&◌, ◌||◌, Option, none, some, List, [], ◌∷◌,
  if◌then◌else◌,
}
use mc_servant.Mining.Position.{MineBlockPos, same_pos, up, has, add}

-- The inputs `bot` and `facts`, and the double arithmetic of the search. `B` are the blocks of the
-- bot's world; `D` are doubles.
pub record World (B D : Type 0) : Type 0 where
  pub read_block_at : MineBlockPos → Option B
  pub block_name : B → String
  pub normalize_name : String → String
  pub is_air_block : B → Bool
  pub is_diggable_block : B → Bool
  pub is_support_block : B → Bool
  -- `<`, and the sum of a cost and an estimate.
  pub less : D → D → Bool
  pub plus : ℕ → D → D
  -- Between two positions, as `distance`; from the eye of a foot to the centre of a block.
  pub distance : MineBlockPos → MineBlockPos → D
  pub eye_distance : MineBlockPos → MineBlockPos → D
  pub max_reach : D
  -- The blocks that hold the sample points between eye and centre, in their order.
  pub ray : MineBlockPos → MineBlockPos → List MineBlockPos
  pub mine_route_heuristic : MineBlockPos → List MineBlockPos → D

module _ {B D : Type 0} (w : World B D) where
  unfoldable pub is_passable : MineBlockPos → List MineBlockPos → Bool
  is_passable p planned_air =
      if has planned_air p
      then true
      else elim (w.read_block_at p) [ none ↦ false | some b ↦ w.is_air_block b ]

  unfoldable pub is_walkable_support : MineBlockPos → List MineBlockPos → Bool
  is_walkable_support p planned_air =
      if has planned_air p
      then false
      else elim (w.read_block_at p) [ none ↦ false | some b ↦ w.is_support_block b ]

  unfoldable pub can_dig_block : MineBlockPos → List MineBlockPos → Bool
  can_dig_block p planned_air =
      if has planned_air p
      then false
      else elim (w.read_block_at p) [ none ↦ false | some b ↦ w.is_diggable_block b ]

  -- The foot and the blocks above it.
  abbrev pub clearance_positions : MineBlockPos → ℕ → List MineBlockPos
  clearance_positions foot zero = []
  clearance_positions foot (suc height) = foot ∷ clearance_positions (up foot) height

  abbrev pub every_passable : List MineBlockPos → List MineBlockPos → Bool
  every_passable [] planned_air = true
  every_passable (p ∷ ps) planned_air = is_passable p planned_air && every_passable ps planned_air

  unfoldable pub has_clearance : MineBlockPos → ℕ → List MineBlockPos → Bool
  has_clearance foot height planned_air =
      every_passable (clearance_positions foot height) planned_air

  -- The loop of `collectClearanceDigs`, from the set `seen` on; a member added again changes nothing.
  unfoldable pub collect_from :
      List MineBlockPos → List MineBlockPos → List MineBlockPos → Option (List MineBlockPos)
  collect_from seen [] planned_air = some []
  collect_from seen (p ∷ ps) planned_air =
      let rest = collect_from (add seen p) ps planned_air in
      if has seen p
      then rest
      else if is_passable p planned_air
      then rest
      else if can_dig_block p planned_air
      then elim rest [ none ↦ none | some digs ↦ some (p ∷ digs) ]
      else none

  unfoldable pub collect_clearance_digs :
      List MineBlockPos → List MineBlockPos → Option (List MineBlockPos)
  collect_clearance_digs = collect_from []

  unfoldable pub verify_target_is_readable : String → MineBlockPos → String → Bool
  verify_target_is_readable block_name position target_name =
      if not (str_eq (w.normalize_name target_name) block_name)
      then false
      else elim (w.read_block_at position) [
        | none ↦ false
        | some b ↦
            if not (w.is_diggable_block b)
            then false
            else str_eq (w.normalize_name (w.block_name b)) block_name
      ]

  -- The loop of `rayClearTo` over the samples, from the set `seen` on.
  unfoldable pub samples_clear :
      MineBlockPos → List MineBlockPos → List MineBlockPos → List MineBlockPos → Bool
  samples_clear target seen [] planned_air = true
  samples_clear target seen (p ∷ ps) planned_air =
      let skipped = same_pos p target || has seen p in
      let rest = samples_clear target (if skipped then seen else add seen p) ps planned_air in
      if skipped
      then rest
      else if has planned_air p
      then rest
      else elim (w.read_block_at p) [ none ↦ rest | some b ↦ w.is_air_block b && rest ]

  unfoldable pub ray_clear_to : MineBlockPos → MineBlockPos → List MineBlockPos → Bool
  ray_clear_to foot target planned_air = samples_clear target [] (w.ray foot target) planned_air

  -- The loop of `findReachableTarget`; `best` is its variable.
  unfoldable pub find_reachable_from :
      Option (MineBlockPos × D)
      → MineBlockPos
      → List MineBlockPos
      → List MineBlockPos
      → Option MineBlockPos
  find_reachable_from best foot planned_air [] = elim best [ none ↦ none | some (p, d) ↦ some p ]
  find_reachable_from best foot planned_air (t ∷ ts) =
      let d = w.eye_distance foot t in
      let closer : Bool = elim best [ none ↦ true | some (p, e) ↦ w.less d e ] in
      find_reachable_from
        (if not (w.less w.max_reach d) && ray_clear_to foot t planned_air && closer
          then some (t, d)
          else best)
        foot planned_air ts

  unfoldable pub find_reachable_target :
      MineBlockPos → List MineBlockPos → List MineBlockPos → Option MineBlockPos
  find_reachable_target = find_reachable_from none
