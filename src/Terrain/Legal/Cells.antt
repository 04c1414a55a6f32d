-- ===== src/Terrain/Legal/Cells.antt =====
-- The block tests of ts-core/src/runtime/transport/terrain/router.ts read the ground that the
-- planned sets stand for.
use mc_servant.Base.{
  ℕ, ◌≡◌, refl, sym, ◌∙◌, ◌⊎◌, inl, inr, true, false, not, ◌&&◌, Option, none, some, List, [], ◌∷◌,
  arith, if◌then◌else◌, Option-cases, Bool-cases,
}
use mathlib.Core.Path.{fun_ext}
use mc_servant.Mining.Position.{up, same_pos, same_pos_iff, has, add, add_all, has-add}
use mc_servant.Mining.Legal.Targets.{has-add_all}
use mc_servant.Terrain.Action.{TerrainBlockPos, TerrainRouteAction, place_at, digs_of, NodeFields}
use mc_servant.Terrain.World.{
  World, Goal, is_passable, is_walkable_support, can_dig_block, can_dig_self_placed_support,
  has_clearance, collect_from, collect_clearance_digs,
}
use mc_servant.Terrain.Search.{successor_fields}
use mc_servant.Terrain.Outcome.{remove}
use mc_servant.Terrain.Legal.{natural, dug, placed, Ground, solid, clear, diggable, after}

none_in : (q : TerrainBlockPos) → has [] q ≡ false
unfolding has
none_in q = refl

has-remove :
    (qs : List TerrainBlockPos) (p q : TerrainBlockPos)
    → has (remove qs p) q ≡ (has qs q && not (same_pos p q))
unfolding remove has
has-remove [] p q = ground arith
has-remove (r ∷ qs) p q =
    ground (arith, has-remove qs p q, same_pos_iff r p, same_pos_iff r q, same_pos_iff p q)

module _ {B D : Type 0} (w : World B D) where
  -- The ground at a node.
  abbrev pub ground_of : NodeFields → Ground w
  ground_of f p =
      if has f.planned_solid p
      then placed
      else if has f.planned_air p
      then dug
      else natural (w.read_block_at p)

  pub is_passable-clear :
      (p : TerrainBlockPos) (f : NodeFields) → is_passable w p f ≡ clear w (ground_of f p)
  unfolding is_passable
  is_passable-clear p f = ground arith

  pub is_walkable_support-solid :
      (p : TerrainBlockPos) (f : NodeFields) → is_walkable_support w p f ≡ solid w (ground_of f p)
  unfolding is_walkable_support
  is_walkable_support-solid p f = ground arith

  can_dig_block-diggable :
      (p : TerrainBlockPos) (f : NodeFields) → can_dig_block w p f ≡ diggable w (ground_of f p)
  unfolding can_dig_block
  can_dig_block-diggable p f = ground arith

  pub can_dig_self_placed_support-diggable :
      (p : TerrainBlockPos) (f : NodeFields)
      → can_dig_self_placed_support w p f ≡ true
      → (diggable w (ground_of f p) ≡ true) × (w.is_self_placed_terrain_block p ≡ true)
  unfolding can_dig_self_placed_support
  can_dig_self_placed_support-diggable p f h = ground arith

  pub has_clearance-clear2 :
      (p : TerrainBlockPos) (f : NodeFields)
      → has_clearance w p 2 f ≡ true
      → (clear w (ground_of f p) ≡ true) × (clear w (ground_of f (up p)) ≡ true)
  unfolding has_clearance
  has_clearance-clear2 p f h =
      (ground (arith, is_passable-clear p f), ground (arith, is_passable-clear (up p) f))

  pub has_clearance-clear3 :
      (p : TerrainBlockPos) (f : NodeFields)
      → has_clearance w p 3 f ≡ true
      → (clear w (ground_of f p) ≡ true)
        × (clear w (ground_of f (up p)) ≡ true)
        × (clear w (ground_of f (up (up p))) ≡ true)
  unfolding has_clearance
  has_clearance-clear3 p f h = (
    ground (arith, is_passable-clear p f),
    ground (arith, is_passable-clear (up p) f),
    ground (arith, is_passable-clear (up (up p)) f),
  )

  module _ (f : NodeFields) (q : TerrainBlockPos) where
    -- A collected dig can be dug, and is one of the positions.
    collect_from-dug :
        (seen ps : List TerrainBlockPos) {ds : List TerrainBlockPos}
        → collect_from w seen ps f ≡ some ds
        → has ds q ≡ true
        → (can_dig_block w q f ≡ true) × (has ps q ≡ true)
    unfolding collect_from has
    collect_from-dug seen [] e h = ground arith
    collect_from-dug seen (p ∷ ps) {ds} e h =
        elim (Option-cases (collect_from w (add seen p) ps f)) [
          | inl k ↦ ground arith
          | inr (rest, k) ↦
              ground (arith, same_pos_iff p q, collect_from-dug (add seen p) ps {ds = rest} k)
        ]

    -- Every position was seen before, can be passed, or is dug.
    collect_from-clear :
        (seen ps : List TerrainBlockPos) {ds : List TerrainBlockPos}
        → collect_from w seen ps f ≡ some ds
        → has ps q ≡ true
        → has seen q ≡ false
        → is_passable w q f ≡ false
        → has ds q ≡ true
    unfolding collect_from has
    collect_from-clear seen [] e h s c = ground arith
    collect_from-clear seen (p ∷ ps) {ds} e h s c =
        elim (Option-cases (collect_from w (add seen p) ps f)) [
          | inl k ↦ ground arith
          | inr (rest, k) ↦ ground (
            arith,
            same_pos_iff p q,
            has-add seen p q,
            collect_from-clear (add seen p) ps {ds = rest} k,
          )
        ]

    pub collect_clearance_digs-dug :
        (ps : List TerrainBlockPos) {ds : List TerrainBlockPos}
        → collect_clearance_digs w ps f ≡ some ds
        → has ds q ≡ true
        → (diggable w (ground_of f q) ≡ true) × (has ps q ≡ true)
    unfolding collect_clearance_digs
    collect_clearance_digs-dug ps e h =
        let (c, m) = collect_from-dug [] ps e h in (sym (can_dig_block-diggable q f) ∙ c, m)

    pub collect_clearance_digs-clear :
        (ps : List TerrainBlockPos) {ds : List TerrainBlockPos}
        → collect_clearance_digs w ps f ≡ some ds
        → has ps q ≡ true
        → (clear w (ground_of f q) ≡ true) ⊎ (has ds q ≡ true)
    unfolding collect_clearance_digs
    collect_clearance_digs-clear ps e h = elim (Bool-cases (is_passable w q f)) [
      | inl c ↦ inl (sym (is_passable-clear q f) ∙ c)
      | inr c ↦ inr (collect_from-clear [] ps e h nothing_seen c)
    ]
      where
        nothing_seen : has [] q ≡ false
        nothing_seen = none_in q

  -- The ground at the node that `pushSuccessor` pushes is that after the action.
  pub successor_fields-after :
      (goal : Goal D) (f : NodeFields) (a : TerrainRouteAction) (cost n : ℕ)
      → ((q : TerrainBlockPos) → has (digs_of a) q ≡ true → diggable w (ground_of f q) ≡ true)
      → ground_of (successor_fields w goal f a cost n) ≡ after w (ground_of f) a
  unfolding successor_fields
  successor_fields-after goal f a cost n h = fun_ext (λ p. at p (place_at a) refl)
    where
      at :
          (p : TerrainBlockPos) (o : Option TerrainBlockPos)
          → place_at a ≡ o
          → ground_of (successor_fields w goal f a cost n) p ≡ after w (ground_of f) a p
      at p none e = ground (arith, h p, has-add_all f.planned_air (digs_of a) p)
      at p (some q) e =
          let dug' = add_all f.planned_air (digs_of a) in
          ground (
            arith,
            h p,
            has-add_all f.planned_air (digs_of a) p,
            has-remove dug' q p,
            has-add f.planned_solid q p,
          )
