-- ===== src/Terrain/Candidates.antt =====
-- ts-core/src/runtime/transport/terrain/router.ts: the actions that `expandSuccessors` tries at a node,
-- with their costs, in its order.
use mc_servant.Base.{
  ℕ, ◌+◌, ◌*◌, Bool, true, false, not, ◌&&◌, ◌||◌, Option, none, some, List, [], ◌∷◌, ◌++◌,
  if◌then◌else◌, length, leb,
}
use mc_servant.Mining.Position.{
  north, directions, ahead, up, down, is_opposite_direction, same_direction,
}
use mc_servant.Terrain.Action.{
  TerrainBlockPos, TerrainRouteDirection, TerrainRouteAction, TerrainActionKind, kind, dir,
  SearchNode, fields, action_of,
}
use mc_servant.Terrain.World.{
  TerrainRouteSearchPhaseName, World, is_walkable_support, can_dig_self_placed_support,
  clearance_positions, has_clearance, collect_clearance_digs,
}

pub record TerrainSearchPhase : Type 0 where
  pub name : TerrainRouteSearchPhaseName
  pub allow_dig : Bool
  pub allow_place_up : Bool
  pub max_dig_blocks : ℕ
  pub max_place_blocks : ℕ
  pub max_drop_blocks : ℕ
  pub max_expanded_states : ℕ
  pub max_no_progress_steps : ℕ

abbrev pub Candidate : Type 0
Candidate = TerrainRouteAction × ℕ

abbrev pub is_vertical_excavation : TerrainActionKind → Bool
is_vertical_excavation TerrainActionKind.dig_drop_self_placed = true
is_vertical_excavation TerrainActionKind.dig_step_down = true
is_vertical_excavation TerrainActionKind.dig_step_up = true
is_vertical_excavation _ = false

unfoldable pub is_immediate_reverse_vertical_excavation :
    SearchNode → TerrainActionKind → TerrainRouteDirection → Bool
is_immediate_reverse_vertical_excavation node next_kind next_dir = elim (action_of node) [
  | none ↦ false
  | some previous ↦
      if not (is_vertical_excavation (kind previous)) || not (is_vertical_excavation next_kind)
      then false
      else is_opposite_direction (dir previous) next_dir
]

abbrev pub turn_penalty : Option TerrainRouteDirection → TerrainRouteDirection → ℕ
turn_penalty none d = 0
turn_penalty (some last) d = if same_direction last d then 0 else 2

-- `node.lastDir ?? "north"`.
abbrev pub last_or_north : Option TerrainRouteDirection → TerrainRouteDirection
last_or_north none = north
last_or_north (some d) = d

abbrev pub when : Bool → Candidate → List Candidate
when true c = c ∷ []
when false c = []

-- A candidate for the digs, if they were collected.
abbrev pub with_digs :
    Option (List TerrainBlockPos) → (List TerrainBlockPos → List Candidate) → List Candidate
with_digs none k = []
with_digs (some ds) k = k ds

module _ {B D : Type 0} (w : World B D) (phase : TerrainSearchPhase) (node : SearchNode) where
  abbrev foot : TerrainBlockPos
  foot = (fields node).foot

  unfoldable pub self_placed_drop : List Candidate
  self_placed_drop =
      let f = fields node in
      let d = last_or_north f.last_dir in
      when
        (phase.allow_dig
          && can_dig_self_placed_support w (down foot) f
          && leb (f.dig_count + 1) phase.max_dig_blocks
          && leb (f.drop_count + 1) phase.max_drop_blocks
          && has_clearance w foot 2 f
          && is_walkable_support w (down (down foot)) f
          && not (
              is_immediate_reverse_vertical_excavation node TerrainActionKind.dig_drop_self_placed
                d))
        (TerrainRouteAction.dig_drop_self_placed (down foot) d (down foot ∷ []), 7 + 6)

  module _ (d : TerrainRouteDirection) where
    -- The position ahead, at the height of the foot.
    abbrev level : TerrainBlockPos
    level = ahead d foot

    abbrev turn : ℕ
    turn = turn_penalty (fields node).last_dir d

    unfoldable pub walk_candidate : List Candidate
    walk_candidate =
        let f = fields node in
        when (is_walkable_support w (down level) f && has_clearance w level 2 f)
          (TerrainRouteAction.walk level d, 6 + turn)

    unfoldable pub drop_candidate : List Candidate
    drop_candidate =
        let f = fields node in
        when
          (has_clearance w foot 3 f
            && has_clearance w (down level) 3 f
            && is_walkable_support w (down (down level)) f
            && leb (f.drop_count + 1) phase.max_drop_blocks)
          (TerrainRouteAction.drop1 (down level) d, 7 + turn)

    unfoldable pub jump_candidate : List Candidate
    jump_candidate =
        let f = fields node in
        when
          (has_clearance w foot 3 f
            && is_walkable_support w level f
            && has_clearance w (up level) 3 f)
          (TerrainRouteAction.jump_up (up level) d, 7 + turn)

    -- `placeDigs`.
    unfoldable pub place_digs : Option (List TerrainBlockPos)
    place_digs =
        let f = fields node in
        if phase.allow_dig
        then collect_clearance_digs w
            (clearance_positions w foot 3 ++ clearance_positions w (up foot) 3) f
        else if has_clearance w foot 3 f && has_clearance w (up foot) 3 f
        then some []
        else none

    unfoldable pub place_candidate : List Candidate
    place_candidate =
        let f = fields node in
        if phase.allow_place_up
          && leb (f.place_count + 1) phase.max_place_blocks
          && is_walkable_support w (down foot) f
        then with_digs place_digs (λ ds.
          when (leb (f.dig_count + length ds) phase.max_dig_blocks && has_clearance w foot 2 f) (
            TerrainRouteAction.place_up1 (up foot) d foot (down foot) ds,
            24 + 6 * length ds + 6 + turn,
          ))
        else []

    unfoldable pub dig_walk_candidate : List Candidate
    dig_walk_candidate =
        let f = fields node in
        if is_walkable_support w (down level) f
        then with_digs (collect_clearance_digs w (level ∷ up level ∷ []) f) (λ ds.
          when (leb 1 (length ds) && leb (f.dig_count + length ds) phase.max_dig_blocks)
            (TerrainRouteAction.dig_walk level d ds, 24 + 6 * length ds + turn))
        else []

    unfoldable pub dig_step_down_candidate : List Candidate
    dig_step_down_candidate =
        let f = fields node in
        with_digs (collect_clearance_digs w (up (up foot) ∷ clearance_positions w (down level) 3) f)
          (λ ds.
            when
              (leb 1 (length ds)
                && leb (f.dig_count + length ds) phase.max_dig_blocks
                && has_clearance w foot 2 f
                && is_walkable_support w (down (down level)) f
                && not (
                    is_immediate_reverse_vertical_excavation node TerrainActionKind.dig_step_down
                      d))
              (TerrainRouteAction.dig_step_down (down level) d ds, 24 + 6 * length ds + 7 + turn))

    unfoldable pub dig_step_up_candidate : List Candidate
    dig_step_up_candidate =
        let f = fields node in
        with_digs (collect_clearance_digs w (up (up foot) ∷ clearance_positions w (up level) 3) f)
          (λ ds.
            when
              (leb 1 (length ds)
                && leb (f.dig_count + length ds) phase.max_dig_blocks
                && has_clearance w foot 2 f
                && is_walkable_support w level f
                && not
                    (is_immediate_reverse_vertical_excavation node TerrainActionKind.dig_step_up d))
              (TerrainRouteAction.dig_step_up (up level) d ds, 24 + 6 * length ds + 7 + turn))

    -- The body of the loop over the directions.
    unfoldable pub candidates_in : List Candidate
    candidates_in =
        walk_candidate
        ++ (drop_candidate
            ++ (jump_candidate
                ++ (place_candidate
                    ++ (if phase.allow_dig
                        then dig_walk_candidate
                          ++ (dig_step_down_candidate ++ dig_step_up_candidate)
                        else []))))

  unfoldable pub candidates_from : List TerrainRouteDirection → List Candidate
  candidates_from [] = []
  candidates_from (d ∷ ds) = candidates_in d ++ candidates_from ds

  unfoldable pub candidates : List Candidate
  candidates = self_placed_drop ++ candidates_from directions
