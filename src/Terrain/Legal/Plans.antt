-- ===== src/Terrain/Legal/Plans.antt =====
-- `planTerrainRoute` of ts-core/src/runtime/transport/terrain/router.ts returns legal routes.
use mc_servant.Base.{
  ℕ, zero, suc, ◌≤◌, ◌≡◌, sym, subst, inl, inr, true, false, Option, none, some, [], All, arith,
  Option-cases, Bool-cases, length,
}
use mc_servant.Mining.Heap.{pop}
use mc_servant.Mining.Heap.Elements.{All-push, All-pop}
use mc_servant.Terrain.Action.{TerrainBlockPos, SearchNode, NodeFields, fields, reconstruct_actions}
use mc_servant.Terrain.World.{World, is_goal}
use mc_servant.Terrain.Search.{
  cheaper, look, widen, solved, failed, out_of_time, search_loop, search_terrain_phase,
}
use mc_servant.Terrain.Outcome.{TerrainRoutePlan, PhaseInput, SearchState}
use mc_servant.Terrain.Legal.{
  Legal, first_ground, foot_after, cost_total, dig_total, place_total, drop_total,
}
use mc_servant.Terrain.Legal.Nodes.{Good, Good-Within, reconstruct_actions-Traced, widen-Good}

module _ {B D : Type 0} (w : World B D) (foot : TerrainBlockPos) (input : PhaseInput D) where
  -- A solution that a phase may find.
  pub record Found (p : TerrainRoutePlan) : Type 0 where
    pub legal : Legal w (first_ground w) foot p.actions
    pub final : p.final_foot ≡ foot_after foot p.actions
    pub goal : is_goal w input.goal p.final_foot ≡ true
    pub cost : p.cost ≡ cost_total none p.actions
    pub short : length p.actions ≤ input.max_depth
    pub digs : dig_total p.actions ≤ input.phase.max_dig_blocks
    pub places : place_total p.actions ≤ input.phase.max_place_blocks
    pub drops : drop_total p.actions ≤ input.phase.max_drop_blocks
    pub no_dig : input.phase.allow_dig ≡ false → dig_total p.actions ≡ 0
    pub no_place : input.phase.allow_place_up ≡ false → place_total p.actions ≡ 0

  solved-Found :
      (node : SearchNode) (expanded : ℕ) {p : TerrainRoutePlan}
      → Good w foot input node
      → is_goal w input.goal (fields node).foot ≡ true
      → (solved w input node expanded).plan ≡ some p
      → Found p
  unfolding solved
  solved-Found node expanded {p} g h e =
      let t = reconstruct_actions-Traced w foot input node [] g in
      let i = Good-Within w foot input node g in
      let f = fields node in
      let q : record { actions = reconstruct_actions node []; final_foot = f.foot; cost = f.cost }
          ≡ p =
        ground arith in
      subst Found q (record {
        legal = t.legal tt;
        final = sym t.ends;
        goal = h;
        cost = omega (arith, t.cost);
        short = omega (arith, t.depth, i.depth);
        digs = omega (arith, t.digs, i.digs);
        places = omega (arith, t.places, i.places);
        drops = omega (arith, t.drops, i.drops);
        no_dig = λ e. omega (arith, t.digs, i.no_dig e);
        no_place = λ e. omega (arith, t.places, i.no_place e);
      })

  open_nodes-look :
      (f : NodeFields) (s : SearchState D) → (look w input f s).open_nodes ≡ s.open_nodes
  unfolding look
  open_nodes-look f s = ground arith

  search_loop-Found :
      (max_expanded left expanded : ℕ) (s : SearchState D) {p : TerrainRoutePlan}
      → All (Good w foot input) s.open_nodes
      → (search_loop w input max_expanded left expanded s).plan ≡ some p
      → Found p
  unfolding search_loop failed
  search_loop-Found max_expanded zero expanded s g e = ground arith
  search_loop-Found max_expanded (suc left) expanded s {p} g e =
      elim (Option-cases (pop (cheaper w) s.open_nodes)) [
        | inl k ↦ absurd (ground arith)
        | inr ((node, rest), k) ↦
            let (n, r) = All-pop (Good w foot input) (cheaper w) s.open_nodes k g in
            elim (Bool-cases (out_of_time w input expanded)) [
              | inl t ↦ absurd (ground arith)
              | inr t ↦ elim (Bool-cases (is_goal w input.goal (fields node).foot)) [
                | inl q ↦ solved-Found node (suc expanded) n q (ground arith)
                | inr q ↦
                    let s' = look w input (fields node) (record s { open_nodes = rest }) in
                    search_loop-Found max_expanded left (suc expanded) (widen w input node s')
                      (widen-Good w foot input node s' n (
                        subst (All (Good w foot input))
                          (sym (open_nodes-look (fields node) (record s { open_nodes = rest }))) r))
                      (ground arith)
              ]
            ]
      ]

  pub search_terrain_phase-Found :
      (remaining : Option ℕ) (node : SearchNode) {p : TerrainRoutePlan}
      → Good w foot input node
      → (search_terrain_phase w input remaining node).plan ≡ some p
      → Found p
  unfolding search_terrain_phase
  search_terrain_phase-Found remaining node g e =
      search_loop-Found _ _ 0 _ (All-push (Good w foot input) (cheaper w) node [] g tt) e
