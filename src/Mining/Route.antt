-- ===== src/Mining/Route.antt =====
-- ts-core/src/runtime/transport/mining/planner.ts: the successors of a search node.
use mc_servant.Base.{
  ℕ, ◌+◌, ◌*◌, Bool, true, false, not, ◌&&◌, ◌||◌, Option, none, some, List, [], ◌∷◌, ◌++◌,
  if◌then◌else◌, length,
}
use mc_servant.Mining.Position.{
  MineBlockPos, MineRouteDirection, directions, ahead, up, down, same_pos, is_opposite_direction,
  same_direction,
}
use mc_servant.Mining.World.{
  World, is_walkable_support, clearance_positions, has_clearance, collect_clearance_digs,
}
use mc_servant.Mining.Node.{
  MineRouteAction, ActionKind, kind, dir, digs_of, SearchNode, fields, action_of, successor,
}

abbrev pub is_vertical_excavation : ActionKind → Bool
is_vertical_excavation ActionKind.dig_step_down = true
is_vertical_excavation ActionKind.dig_step_up = true
is_vertical_excavation _ = false

unfoldable pub is_immediate_reverse_vertical_excavation :
    SearchNode → ActionKind → MineRouteDirection → Bool
is_immediate_reverse_vertical_excavation node next_kind next_dir = elim (action_of node) [
  | none ↦ false
  | some previous ↦
      if not (is_vertical_excavation (kind previous)) || not (is_vertical_excavation next_kind)
      then false
      else is_opposite_direction (dir previous) next_dir
]

abbrev pub turn_penalty : Option MineRouteDirection → MineRouteDirection → ℕ
turn_penalty none d = 0
turn_penalty (some last) d = if same_direction last d then 0 else 2

-- `digs !== null && digs.length > 0`.
abbrev pub some_digs : Option (List MineBlockPos) → Option (List MineBlockPos)
some_digs (some (d ∷ ds)) = some (d ∷ ds)
some_digs _ = none

abbrev pub when : Bool → SearchNode → List SearchNode
when true node = node ∷ []
when false node = []

module _ {B D : Type 0} (w : World B D) (node : SearchNode) (d : MineRouteDirection) where
  abbrev foot : MineBlockPos
  foot = (fields node).foot

  abbrev air : List MineBlockPos
  air = (fields node).planned_air

  -- The position ahead, at the height of the foot.
  abbrev level : MineBlockPos
  level = ahead d foot

  abbrev turn : ℕ
  turn = turn_penalty (fields node).last_dir d

  unfoldable pub walk_successor : List SearchNode
  walk_successor =
      when (is_walkable_support w (down level) air && has_clearance w level 2 air)
        (successor node (MineRouteAction.walk level d) (10 + turn))

  unfoldable pub drop_successor : List SearchNode
  drop_successor =
      when
        (has_clearance w foot 3 air
          && has_clearance w (down level) 3 air
          && is_walkable_support w (down (down level)) air)
        (successor node (MineRouteAction.drop1 (down level) d) (12 + turn))

  unfoldable pub jump_successor : List SearchNode
  jump_successor =
      when
        (has_clearance w foot 3 air
          && is_walkable_support w level air
          && has_clearance w (up level) 3 air)
        (successor node (MineRouteAction.jump_up (up level) d) (14 + turn))

  unfoldable pub dig_walk_successor : List SearchNode
  dig_walk_successor =
      if is_walkable_support w (down level) air
      then elim (some_digs (collect_clearance_digs w (level ∷ up level ∷ []) air)) [
        | none ↦ []
        | some ds ↦
            successor node (MineRouteAction.dig_walk level d ds) (22 + 4 * length ds + turn) ∷ []
      ]
      else []

  unfoldable pub dig_step_down_successor : List SearchNode
  dig_step_down_successor =
      elim (some_digs
        (collect_clearance_digs w (up (up foot) ∷ clearance_positions w (down level) 3) air)) [
          | none ↦ []
          | some ds ↦
              when
                (has_clearance w foot 2 air
                  && is_walkable_support w (down (down level)) air
                  && not (is_immediate_reverse_vertical_excavation node ActionKind.dig_step_down d))
                (successor node (MineRouteAction.dig_step_down (down level) d ds)
                  (12 + 4 * length ds + turn))
        ]

  unfoldable pub dig_step_up_successor : List SearchNode
  dig_step_up_successor =
      elim (some_digs
        (collect_clearance_digs w (up (up foot) ∷ clearance_positions w (up level) 3) air)) [
          | none ↦ []
          | some ds ↦
              when
                (has_clearance w foot 2 air
                  && is_walkable_support w level air
                  && not (is_immediate_reverse_vertical_excavation node ActionKind.dig_step_up d))
                (successor node (MineRouteAction.dig_step_up (up level) d ds)
                  (12 + 4 * length ds + 14 + turn))
        ]

  -- The body of the loop over the directions.
  unfoldable pub successors_in : List SearchNode
  successors_in =
      walk_successor
      ++ (drop_successor
          ++ (jump_successor
              ++ (dig_walk_successor ++ (dig_step_down_successor ++ dig_step_up_successor))))

module _ {B D : Type 0} (w : World B D) (node : SearchNode) where
  unfoldable pub successors_from : List MineRouteDirection → List SearchNode
  successors_from [] = []
  successors_from (d ∷ ds) = successors_in w node d ++ successors_from ds

  unfoldable pub expand_successors : List SearchNode
  expand_successors = successors_from directions

-- `targets.find((candidate) => samePos(candidate.position, dig))`.
unfoldable pub find_target : List MineBlockPos → MineBlockPos → Option MineBlockPos
find_target [] p = none
find_target (t ∷ ts) p = if same_pos t p then some t else find_target ts p

unfoldable pub find_dug_in : List MineBlockPos → List MineBlockPos → Option MineBlockPos
find_dug_in [] targets = none
find_dug_in (p ∷ ps) targets = elim (find_target targets p) [
  | none ↦ find_dug_in ps targets
  | some t ↦ some t
]

unfoldable pub find_dug_target : Option MineRouteAction → List MineBlockPos → Option MineBlockPos
find_dug_target none targets = none
find_dug_target (some action) targets = find_dug_in (digs_of action) targets
