-- ===== src/Terrain/Legal/Candidates.antt =====
-- All candidates of ts-core/src/runtime/transport/terrain/router.ts are legal steps.
use mc_servant.Base.{
  false, ◌+◌, ◌≡◌, refl, sym, subst, ◌∙◌, inl, inr, true, ◌&&◌, some, List, [], ◌∷◌, ◌++◌, All,
  All-append, arith, if◌then◌else◌, length, leb, Bool-cases,
}
use mc_servant.Mining.Position.{MineRouteDirection, directions, ahead, up, down, same_pos_iff, has}
use mc_servant.Terrain.Action.{TerrainBlockPos, NodeFields, SearchNode, fields}
use mc_servant.Terrain.World.{
  World, is_walkable_support, has_clearance, clearance_positions, collect_clearance_digs,
}
use mc_servant.Terrain.Candidates.{
  TerrainSearchPhase, Candidate, place_digs, place_candidate, candidates_in, candidates_from,
  candidates,
}
use mc_servant.Terrain.Legal.{dug, Ground, clear, diggable}
use mc_servant.Terrain.Legal.Heights.{down-up, above1, above2}
use mc_servant.Terrain.Legal.Cells.{
  ground_of, is_walkable_support-solid, has_clearance-clear2, has_clearance-clear3,
  collect_clearance_digs-dug,
}
use mc_servant.Terrain.Legal.Moves.{
  All-when, All-with_digs, All-if, Sound, no_digs, cleared, self_placed_drop-Sound,
  walk_candidate-Sound, drop_candidate-Sound, jump_candidate-Sound,
}
use mc_servant.Terrain.Legal.Digs.{
  dig_walk_candidate-Sound, dig_step_down_candidate-Sound, dig_step_up_candidate-Sound,
}

module _ {B D : Type 0} (w : World B D) (phase : TerrainSearchPhase) (node : SearchNode) where
  abbrev f : NodeFields
  f = fields node

  abbrev g : Ground w
  g = ground_of w f

  abbrev S : Candidate → Type 0
  S = Sound w phase node

  module _ (d : MineRouteDirection) where
    abbrev level : TerrainBlockPos
    level = ahead d f.foot

    -- The digs of a placement can be dug, and leave room above the placed block.
    abbrev Room : List TerrainBlockPos → Type 0
    Room ds =
        ((q : TerrainBlockPos) → has ds q ≡ true → diggable w (g q) ≡ true)
        × (phase.allow_dig ≡ false → length ds ≡ 0)
        × (clear w (if has ds (up f.foot) then dug else g (up f.foot)) ≡ true)
        × (clear w (if has ds (up (up f.foot)) then dug else g (up (up f.foot))) ≡ true)

    place_digs-Room : (ds : List TerrainBlockPos) → place_digs w phase node d ≡ some ds → Room ds
    unfolding place_digs has
    place_digs-Room ds e =
        let foot = f.foot in
        let cells = clearance_positions w foot 3 ++ clearance_positions w (up foot) 3 in
        elim (Bool-cases phase.allow_dig) [
          | inl k ↦
              let c : collect_clearance_digs w cells f ≡ some ds = ground arith in
              (
                λ q m. (collect_clearance_digs-dug w f q cells c m).0,
                λ n. ground arith,
                cleared w phase node cells c (up foot)
                    (ground (arith, same_pos_iff (up foot) (up foot))),
                cleared w phase node cells c (up (up foot))
                    (ground (arith, same_pos_iff (up (up foot)) (up (up foot)))),
              )
          | inr k ↦
              let (a, b, c) = has_clearance-clear3 w (up foot) f (ground arith) in
              let q : [] ≡ ds = ground arith in subst Room q (no_digs w phase node, λ e. refl, a, b)
        ]

    place_candidate-Sound : All S (place_candidate w phase node d)
    unfolding place_candidate has
    place_candidate-Sound =
        let foot = f.foot in
        let may =
          phase.allow_place_up
          && leb (f.place_count + 1) phase.max_place_blocks
          && is_walkable_support w (down foot) f in
        All-if S may _ (λ t. All-with_digs S _ _ (λ ds e.
          All-when S
            (leb (f.dig_count + length ds) phase.max_dig_blocks && has_clearance w foot 2 f) _
            (λ h.
              let (digs, no_dig, a, b) = place_digs-Room ds e in
              let (c, c') = has_clearance-clear2 w foot f (ground arith) in
              record {
                step = record {
                  leads = refl;
                  digs = digs;
                  needs = (
                    refl,
                    refl,
                    sym (is_walkable_support-solid w (down foot) f) ∙ (ground arith),
                    c,
                  );
                  stands = (
                    ground (arith, same_pos_iff foot (down (up foot)), down-up foot),
                    ground (arith, above1 foot),
                    ground (arith, above2 foot),
                  );
                };
                cost = ground arith;
                dig_limit = inr (ground arith);
                place_limit = inr (ground arith);
                drop_limit = inl refl;
                no_dig = no_dig;
                no_place = λ e. ground arith;
              })))

    candidates_in-Sound : All S (candidates_in w phase node d)
    unfolding candidates_in
    candidates_in-Sound = All-append S _ _ (walk_candidate-Sound w phase node d) (
        All-append S _ _ (drop_candidate-Sound w phase node d) (
          All-append S _ _ (jump_candidate-Sound w phase node d) (
            All-append S _ _ place_candidate-Sound (
              All-if S _ _ (λ k. All-append S _ _ (dig_walk_candidate-Sound w phase node d k) (
                All-append S _ _ (dig_step_down_candidate-Sound w phase node d k)
                  (dig_step_up_candidate-Sound w phase node d k)))))))

  candidates_from-Sound : (ds : List MineRouteDirection) → All S (candidates_from w phase node ds)
  unfolding candidates_from
  candidates_from-Sound [] = tt
  candidates_from-Sound (d ∷ ds) =
      All-append S _ _ (candidates_in-Sound d) (candidates_from-Sound ds)

  -- All candidates are legal steps, at their costs and within the limits of the phase.
  pub candidates-Sound : All S (candidates w phase node)
  unfolding candidates
  candidates-Sound =
      All-append S _ _ (self_placed_drop-Sound w phase node) (candidates_from-Sound directions)
