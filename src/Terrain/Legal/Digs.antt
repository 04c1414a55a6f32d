-- ===== src/Terrain/Legal/Digs.antt =====
-- The digging candidates of ts-core/src/runtime/transport/terrain/router.ts are legal steps.
use mc_servant.Base.{◌≡◌, refl, sym, ap, ◌∙◌, inl, inr, true, [], ◌∷◌, All, arith}
use mc_servant.Mining.Position.{MineRouteDirection, ahead, up, down, same_pos_iff, has}
use mc_servant.Terrain.Action.{TerrainBlockPos, NodeFields, SearchNode, fields}
use mc_servant.Terrain.World.{World, clearance_positions}
use mc_servant.Terrain.Candidates.{
  TerrainSearchPhase, Candidate, dig_walk_candidate, dig_step_down_candidate, dig_step_up_candidate,
}
use mc_servant.Terrain.Legal.{Ground, solid}
use mc_servant.Terrain.Legal.Heights.{down-up, below1, below2, below3, beside}
use mc_servant.Terrain.Legal.Cells.{
  ground_of, is_walkable_support-solid, collect_clearance_digs-dug,
}
use mc_servant.Terrain.Legal.Moves.{All-when, All-with_digs, All-if, Sound, kept, cleared}

module _ {B D : Type 0} (w : World B D) (phase : TerrainSearchPhase) (node : SearchNode) where
  abbrev f : NodeFields
  f = fields node

  abbrev g : Ground w
  g = ground_of w f

  abbrev S : Candidate → Type 0
  S = Sound w phase node

  module _ (d : MineRouteDirection) (may_dig : phase.allow_dig ≡ true) where
    abbrev level : TerrainBlockPos
    level = ahead d f.foot

    pub dig_walk_candidate-Sound : All S (dig_walk_candidate w phase node d)
    unfolding dig_walk_candidate has
    dig_walk_candidate-Sound = All-if S _ _ (λ s.
        let cells = level ∷ up level ∷ [] in
        All-with_digs S _ _ (λ ds e. All-when S _ _ (λ h. record {
          step = record {
            leads = refl;
            digs = λ q m. (collect_clearance_digs-dug w f q cells e m).0;
            needs = tt;
            stands = (
              kept w phase node cells e (down level) (ground (arith, below1 level, below2 level))
                  (sym (is_walkable_support-solid w (down level) f) ∙ s),
              cleared w phase node cells e level (ground (arith, same_pos_iff level level)),
              cleared w phase node cells e (up level)
                  (ground (arith, same_pos_iff (up level) (up level))),
            );
          };
          cost = refl;
          dig_limit = inr (ground arith);
          place_limit = inl refl;
          drop_limit = inl refl;
          no_dig = λ e. ground arith;
          no_place = λ e. refl;
        })))

    pub dig_step_down_candidate-Sound : All S (dig_step_down_candidate w phase node d)
    unfolding dig_step_down_candidate has
    dig_step_down_candidate-Sound =
        let top = up (up f.foot) in
        let low = down level in
        let cells = top ∷ clearance_positions w low 3 in
        All-with_digs S _ _ (λ ds e. All-when S _ _ (λ h. record {
          step = record {
            leads = refl;
            digs = λ q m. (collect_clearance_digs-dug w f q cells e m).0;
            needs = tt;
            stands = (
              kept w phase node cells e (down low)
                  (ground (
                    arith,
                    beside d f.foot top (down low) refl refl refl refl,
                    below1 low,
                    below2 low,
                    below3 low,
                  ))
                  (sym (is_walkable_support-solid w (down low) f) ∙ (ground arith)),
              cleared w phase node cells e low (ground (arith, same_pos_iff low low)),
              cleared w phase node cells e (up low)
                  (ground (arith, same_pos_iff (up low) (up low))),
            );
          };
          cost = ground arith;
          dig_limit = inr (ground arith);
          place_limit = inl refl;
          drop_limit = inl refl;
          no_dig = λ e. ground arith;
          no_place = λ e. refl;
        }))

    pub dig_step_up_candidate-Sound : All S (dig_step_up_candidate w phase node d)
    unfolding dig_step_up_candidate has
    dig_step_up_candidate-Sound =
        let top = up (up f.foot) in
        let high = up level in
        let cells = top ∷ clearance_positions w high 3 in
        All-with_digs S _ _ (λ ds e. All-when S _ _ (λ h.
          let s : solid w (g level) ≡ true =
            sym (is_walkable_support-solid w level f) ∙ (ground arith) in
          record {
            step = record {
              leads = refl;
              digs = λ q m. (collect_clearance_digs-dug w f q cells e m).0;
              needs = tt;
              stands = (
                kept w phase node cells e (down high)
                    (ground (
                      arith,
                      beside d f.foot top (down high) refl refl refl refl,
                      below1 high,
                      below2 high,
                      below3 high,
                    ))
                    (ap (λ q. solid w (g q)) (down-up level) ∙ s),
                cleared w phase node cells e high (ground (arith, same_pos_iff high high)),
                cleared w phase node cells e (up high)
                    (ground (arith, same_pos_iff (up high) (up high))),
              );
            };
            cost = ground arith;
            dig_limit = inr (ground arith);
            place_limit = inl refl;
            drop_limit = inl refl;
            no_dig = λ e. ground arith;
            no_place = λ e. refl;
          }))
