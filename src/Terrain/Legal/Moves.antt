-- ===== src/Terrain/Legal/Moves.antt =====
-- The candidates of ts-core/src/runtime/transport/terrain/router.ts are legal steps.
use mc_servant.Base.{
  ◌+◌, ◌≤◌, ◌≡◌, refl, sym, ap, ◌∙◌, ◌⊎◌, inl, inr, Bool, true, false, Option, none, some, List, [],
  All, arith, if◌then◌else◌, length, Bool-cases,
}
use mc_servant.Mining.Position.{MineRouteDirection, ahead, up, down, same_pos_iff, has}
use mc_servant.Terrain.Action.{
  TerrainBlockPos, digs_of, places, drops, NodeFields, SearchNode, fields,
}
use mc_servant.Terrain.World.{World, collect_clearance_digs}
use mc_servant.Terrain.Candidates.{
  TerrainSearchPhase, Candidate, when, with_digs, self_placed_drop, walk_candidate, drop_candidate,
  jump_candidate,
}
use mc_servant.Terrain.Legal.{Cell, dug, Ground, solid, clear, diggable, Step, cost_of}
use mc_servant.Terrain.Legal.Heights.{up-down, down-up, below1}
use mc_servant.Terrain.Legal.Cells.{
  ground_of, is_walkable_support-solid, can_dig_self_placed_support-diggable, has_clearance-clear2,
  has_clearance-clear3, collect_clearance_digs-dug, collect_clearance_digs-clear,
}

pub All-when :
    (P : Candidate → Type 0) (b : Bool) (c : Candidate) → (b ≡ true → P c) → All P (when b c)
All-when P true c h = (h refl, tt)
All-when P false c h = tt

pub All-with_digs :
    (P : Candidate → Type 0) (o : Option (List TerrainBlockPos))
    (k : List TerrainBlockPos → List Candidate)
    → ((ds : List TerrainBlockPos) → o ≡ some ds → All P (k ds))
    → All P (with_digs o k)
All-with_digs P none k h = tt
All-with_digs P (some ds) k h = h ds refl

pub All-if :
    (P : Candidate → Type 0) (b : Bool) (cs : List Candidate)
    → (b ≡ true → All P cs)
    → All P (if b then cs else [])
All-if P true cs h = h refl
All-if P false cs h = tt

module _ {B D : Type 0} (w : World B D) (phase : TerrainSearchPhase) (node : SearchNode) where
  abbrev f : NodeFields
  f = fields node

  abbrev g : Ground w
  g = ground_of w f

  -- A step from the node, at its cost, that keeps the limits of the phase.
  pub record Sound (c : Candidate) : Type 0 where
    pub step : Step w g f.foot c.0
    pub cost : c.1 ≡ cost_of f.last_dir c.0
    pub dig_limit :
        (length (digs_of c.0) ≡ 0) ⊎ (f.dig_count + length (digs_of c.0) ≤ phase.max_dig_blocks)
    pub place_limit : (places c.0 ≡ 0) ⊎ (f.place_count + places c.0 ≤ phase.max_place_blocks)
    pub drop_limit : (drops c.0 ≡ 0) ⊎ (f.drop_count + drops c.0 ≤ phase.max_drop_blocks)
    pub no_dig : phase.allow_dig ≡ false → length (digs_of c.0) ≡ 0
    pub no_place : phase.allow_place_up ≡ false → places c.0 ≡ 0

  pub no_digs : (q : TerrainBlockPos) → has [] q ≡ true → diggable w (g q) ≡ true
  unfolding has
  no_digs q e = cc

  module _ (ps : List TerrainBlockPos) {ds : List TerrainBlockPos}
      (collected : collect_clearance_digs w ps f ≡ some ds) (q : TerrainBlockPos) where
    -- The cell after the digs.
    abbrev left : Cell B
    left = if has ds q then dug else g q

    pub kept : has ps q ≡ false → solid w (g q) ≡ true → solid w left ≡ true
    kept h s = elim (Bool-cases (has ds q)) [
      | inl e ↦ ground (arith, collect_clearance_digs-dug w f q ps collected e)
      | inr e ↦ ground arith
    ]

    pub cleared : has ps q ≡ true → clear w left ≡ true
    cleared h = elim (collect_clearance_digs-clear w f q ps collected h) [
      | inl e ↦ ground arith
      | inr e ↦ ground arith
    ]

  pub self_placed_drop-Sound : All Sound (self_placed_drop w phase node)
  unfolding self_placed_drop has
  self_placed_drop-Sound = All-when Sound _ _ (λ h.
      let foot = f.foot in
      let (m, own) = can_dig_self_placed_support-diggable w (down foot) f (ground arith) in
      let (a, b) = has_clearance-clear2 w foot f (ground arith) in
      let s : solid w (g (down (down foot))) ≡ true =
        sym (is_walkable_support-solid w (down (down foot)) f) ∙ (ground arith) in
      record {
        step = record {
          leads = refl;
          digs = λ q e. ground (arith, same_pos_iff (down foot) q);
          needs = (refl, own);
          stands = (
            ground (arith, below1 (down foot)),
            ground (arith, same_pos_iff (down foot) (down foot)),
            ground (arith, ap g (up-down foot)),
          );
        };
        cost = refl;
        dig_limit = inr (ground arith);
        place_limit = inl refl;
        drop_limit = inr (ground arith);
        no_dig = λ e. ground arith;
        no_place = λ e. refl;
      })

  module _ (d : MineRouteDirection) where
    abbrev level : TerrainBlockPos
    level = ahead d f.foot

    pub walk_candidate-Sound : All Sound (walk_candidate w phase node d)
    unfolding walk_candidate has
    walk_candidate-Sound = All-when Sound _ _ (λ h.
        let (a, b) = has_clearance-clear2 w level f (ground arith) in
        record {
          step = record {
            leads = refl;
            digs = no_digs;
            needs = tt;
            stands = (sym (is_walkable_support-solid w (down level) f) ∙ (ground arith), a, b);
          };
          cost = refl;
          dig_limit = inl refl;
          place_limit = inl refl;
          drop_limit = inl refl;
          no_dig = λ e. refl;
          no_place = λ e. refl;
        })

    pub drop_candidate-Sound : All Sound (drop_candidate w phase node d)
    unfolding drop_candidate has
    drop_candidate-Sound = All-when Sound _ _ (λ h.
        let (a, b, c) = has_clearance-clear3 w (down level) f (ground arith) in
        record {
          step = record {
            leads = refl;
            digs = no_digs;
            needs = tt;
            stands =
                (sym (is_walkable_support-solid w (down (down level)) f) ∙ (ground arith), a, b);
          };
          cost = refl;
          dig_limit = inl refl;
          place_limit = inl refl;
          drop_limit = inr (ground arith);
          no_dig = λ e. refl;
          no_place = λ e. refl;
        })

    pub jump_candidate-Sound : All Sound (jump_candidate w phase node d)
    unfolding jump_candidate has
    jump_candidate-Sound = All-when Sound _ _ (λ h.
        let (a, b, c) = has_clearance-clear3 w (up level) f (ground arith) in
        let s : solid w (g level) ≡ true =
          sym (is_walkable_support-solid w level f) ∙ (ground arith) in
        record {
          step = record {
            leads = refl;
            digs = no_digs;
            needs = tt;
            stands = (ap (λ q. solid w (g q)) (down-up level) ∙ s, a, b);
          };
          cost = refl;
          dig_limit = inl refl;
          place_limit = inl refl;
          drop_limit = inl refl;
          no_dig = λ e. refl;
          no_place = λ e. refl;
        })
