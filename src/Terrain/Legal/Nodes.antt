-- ===== src/Terrain/Legal/Nodes.antt =====
-- The nodes that the search of ts-core/src/runtime/transport/terrain/router.ts holds stand for legal
-- routes within the limits of its phase.
use mc_servant.Base.{
  ℕ, suc, ◌+◌, ◌≤◌, ◌≡◌, refl, sym, ap, subst, ◌∙◌, inl, inr, Bool, true, false, ◌||◌, none, some,
  List, [], ◌∷◌, All, arith, Option-cases, Bool-cases, length, leb, if◌then◌else◌,
}
use mc_servant.Mining.Heap.Elements.{All-push}
use mc_servant.Terrain.Action.{
  TerrainBlockPos, TerrainRouteAction, to_foot, dir, digs_of, places, drops, NodeFields, SearchNode,
  start, next, fields, reconstruct_actions,
}
use mc_servant.Terrain.World.{World, goal_distance_score}
use mc_servant.Terrain.Candidates.{Candidate, candidates}
use mc_servant.Terrain.Visited.{TerrainStateKey}
use mc_servant.Terrain.Search.{
  successor_fields, push_successor, push_all, expand_successors, cheaper, enqueue, widen,
}
use mc_servant.Terrain.Outcome.{PhaseInput, SearchState}
use mc_servant.Terrain.Legal.{
  Ground, first_ground, Step, Legal, after, foot_after, cost_of, cost_total, dig_total, place_total,
  drop_total,
}
use mc_servant.Terrain.Legal.Cells.{ground_of, successor_fields-after}
use mc_servant.Terrain.Legal.Moves.{Sound}
use mc_servant.Terrain.Legal.Candidates.{candidates-Sound}

module _ {B D : Type 0} (w : World B D) where
  -- Within the limits of a search.
  pub record Within (input : PhaseInput D) (f : NodeFields) : Type 0 where
    pub depth : f.depth ≤ input.max_depth
    pub digs : f.dig_count ≤ input.phase.max_dig_blocks
    pub places : f.place_count ≤ input.phase.max_place_blocks
    pub drops : f.drop_count ≤ input.phase.max_drop_blocks
    pub no_dig : input.phase.allow_dig ≡ false → f.dig_count ≡ 0
    pub no_place : input.phase.allow_place_up ≡ false → f.place_count ≡ 0

  -- What a node has of its parent and its action.
  pub record Linked (p f : NodeFields) (a : TerrainRouteAction) : Type 0 where
    pub step : Step w (ground_of w p) p.foot a
    pub ground : ground_of w f ≡ after w (ground_of w p) a
    pub foot : f.foot ≡ to_foot a
    pub cost : f.cost ≡ p.cost + cost_of p.last_dir a
    pub last : f.last_dir ≡ some (dir a)
    pub depth : f.depth ≡ suc p.depth
    pub dig_count : f.dig_count ≡ p.dig_count + length (digs_of a)
    pub place_count : f.place_count ≡ p.place_count + places a
    pub drop_count : f.drop_count ≡ p.drop_count + drops a

  -- The fields of the start node, but for its priority.
  pub record Fresh (start_foot : TerrainBlockPos) (f : NodeFields) : Type 0 where
    pub ground : ground_of w f ≡ first_ground w
    pub foot : f.foot ≡ start_foot
    pub cost : f.cost ≡ 0
    pub last : f.last_dir ≡ none
    pub depth : f.depth ≡ 0
    pub dig_count : f.dig_count ≡ 0
    pub place_count : f.place_count ≡ 0
    pub drop_count : f.drop_count ≡ 0

  -- The guards of the search but for the depth.
  abbrev stops : PhaseInput D → SearchNode → Bool
  stops input node =
      let f = fields node in
      leb 48 (length f.planned_air)
      || leb input.max_planned_solid (length f.planned_solid)
      || leb 192 (length f.planned_air + length f.planned_solid)

  module _ (foot : TerrainBlockPos) (input : PhaseInput D) where
    -- A node that the search may hold.
    abbrev pub Good : SearchNode → Type 0
    Good (start f) = Fresh foot f
    Good (next f parent a) = Good parent × Linked (fields parent) f a × Within input f

    pub Good-Within : (node : SearchNode) → Good node → Within input (fields node)
    Good-Within (start f) g = record {
      depth = omega (arith, g.depth);
      digs = omega (arith, g.dig_count);
      places = omega (arith, g.place_count);
      drops = omega (arith, g.drop_count);
      no_dig = λ e. g.dig_count;
      no_place = λ e. g.place_count;
    }
    Good-Within (next f parent a) g = g.2

    -- The whole route, if `as'` are the actions behind a node.
    pub record Traced (node : SearchNode) (as' : List TerrainRouteAction) : Type 0 where
      pub legal :
          Legal w (ground_of w (fields node)) (fields node).foot as'
          → Legal w (first_ground w) foot (reconstruct_actions node as')
      pub ends : foot_after foot (reconstruct_actions node as') ≡ foot_after (fields node).foot as'
      pub cost :
          cost_total none (reconstruct_actions node as')
          ≡ (fields node).cost + cost_total (fields node).last_dir as'
      pub depth : length (reconstruct_actions node as') ≡ (fields node).depth + length as'
      pub digs : dig_total (reconstruct_actions node as') ≡ (fields node).dig_count + dig_total as'
      pub places :
          place_total (reconstruct_actions node as') ≡ (fields node).place_count + place_total as'
      pub drops :
          drop_total (reconstruct_actions node as') ≡ (fields node).drop_count + drop_total as'

    pub reconstruct_actions-Traced :
        (node : SearchNode) (as' : List TerrainRouteAction) → Good node → Traced node as'
    unfolding reconstruct_actions
    reconstruct_actions-Traced (start f) as' g = record {
      legal = λ h.
          subst (λ (k : Ground w). Legal w k foot as') g.ground
            (subst (λ p. Legal w (ground_of w f) p as') g.foot h);
      ends = ap (λ p. foot_after p as') (sym g.foot);
      cost = ap (λ l. cost_total l as') (sym g.last) ∙ omega (arith, g.cost);
      depth = omega (arith, g.depth);
      digs = omega (arith, g.dig_count);
      places = omega (arith, g.place_count);
      drops = omega (arith, g.drop_count);
    }
    reconstruct_actions-Traced (next f parent a) as' (g, l, d) =
        let t = reconstruct_actions-Traced parent (a ∷ as') g in
        record {
          legal = λ h. t.legal (
            l.step,
            subst (λ (k : Ground w). Legal w k (to_foot a) as') l.ground
                (subst (λ p. Legal w (ground_of w f) p as') l.foot h),
          );
          ends = t.ends ∙ ap (λ p. foot_after p as') (sym l.foot);
          cost = omega (arith, t.cost, l.cost, ap (λ k. cost_total k as') l.last);
          depth = omega (arith, t.depth, l.depth);
          digs = omega (arith, t.digs, l.dig_count);
          places = omega (arith, t.places, l.place_count);
          drops = omega (arith, t.drops, l.drop_count);
        }

    successor-Linked :
        (parent : SearchNode) (a : TerrainRouteAction) (c n : ℕ)
        → Sound w input.phase parent (a, c)
        → Linked (fields parent) (successor_fields w input.goal (fields parent) a c n) a
    unfolding successor_fields
    successor-Linked parent a c n h = record {
      step = h.step;
      ground = successor_fields-after w input.goal (fields parent) a c n h.step.digs;
      foot = refl;
      cost = omega (arith, h.cost);
      last = refl;
      depth = refl;
      dig_count = refl;
      place_count = refl;
      drop_count = refl;
    }

    successor-Within :
        (parent : SearchNode) (a : TerrainRouteAction) (c n : ℕ)
        → Sound w input.phase parent (a, c)
        → Within input (fields parent)
        → leb input.max_depth (fields parent).depth ≡ false
        → Within input (successor_fields w input.goal (fields parent) a c n)
    unfolding successor_fields
    successor-Within parent a c n h i d = record {
      depth = ground arith;
      digs = ground (arith, h.dig_limit, i.digs);
      places = ground (arith, h.place_limit, i.places);
      drops = ground (arith, h.drop_limit, i.drops);
      no_dig = λ e. omega (arith, h.no_dig e, i.no_dig e);
      no_place = λ e. omega (arith, h.no_place e, i.no_place e);
    }

    push_successor-Good :
        (parent s : SearchNode) (a : TerrainRouteAction) (c : ℕ)
        → Good parent
        → Sound w input.phase parent (a, c)
        → leb input.max_depth (fields parent).depth ≡ false
        → push_successor w input parent (a, c) ≡ some s
        → Good s
    unfolding push_successor
    push_successor-Good parent s a c g h d e =
        let f = fields parent in
        let goes =
          w.less (goal_distance_score w input.goal (to_foot a))
            (goal_distance_score w input.goal f.foot) in
        let steps : ℕ = if goes then 0 else f.no_progress_steps + 1 in
        let q : next (successor_fields w input.goal f a c steps) parent a ≡ s = ground arith in
        subst Good q (
          g,
          successor-Linked parent a c steps h,
          successor-Within parent a c steps h (Good-Within parent g) d,
        )

    push_all-Good :
        (parent : SearchNode) (cs : List Candidate)
        → Good parent
        → leb input.max_depth (fields parent).depth ≡ false
        → All (Sound w input.phase parent) cs
        → All Good (push_all w input parent cs).0
    unfolding push_all
    push_all-Good parent [] g d h = tt
    push_all-Good parent (c ∷ cs) g d h = elim (Option-cases (push_successor w input parent c)) [
      | inl e ↦ subst (All Good) (ground arith) (push_all-Good parent cs g d h.1)
      | inr (s, e) ↦
          subst (All Good) {x = s ∷ (push_all w input parent cs).0} (ground arith)
            (push_successor-Good parent s c.0 c.1 g h.0 d e, push_all-Good parent cs g d h.1)
    ]

    if-Good :
        (b : Bool) (xs ys : List SearchNode)
        → All Good xs
        → All Good ys
        → All Good (if b then xs else ys)
    if-Good true xs ys h k = h
    if-Good false xs ys h k = k

    enqueue-Good :
        (ss open_nodes : List SearchNode) (visited : List (TerrainStateKey × ℕ))
        → All Good ss
        → All Good open_nodes
        → All Good (enqueue w ss open_nodes visited).0
    unfolding enqueue
    enqueue-Good [] open_nodes visited h g = g
    enqueue-Good (s ∷ ss) open_nodes visited h g =
        enqueue-Good ss _ _ h.1
          (if-Good _ open_nodes _ g (All-push Good (cheaper w) s open_nodes h.0 g))

    pub widen-Good :
        (node : SearchNode) (s : SearchState D)
        → Good node
        → All Good s.open_nodes
        → All Good (widen w input node s).open_nodes
    unfolding widen expand_successors
    widen-Good node s n g = elim (Bool-cases (leb input.max_depth (fields node).depth)) [
      | inl e ↦ subst (All Good) (ground arith) g
      | inr e ↦
          let nodes = (push_all w input node (candidates w input.phase node)).0 in
          let wide =
            enqueue-Good nodes s.open_nodes s.visited
              (push_all-Good node _ n e (candidates-Sound w input.phase node)) g in
          elim (Bool-cases (stops input node)) [
            | inl k ↦ subst (All Good) (ground arith) g
            | inr k ↦ subst (All Good) (ground arith) wide
          ]
    ]
