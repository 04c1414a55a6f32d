-- ===== src/Mining/Legal/Nodes.antt =====
-- The nodes that the search of ts-core/src/runtime/transport/mining/planner.ts holds stand for legal
-- routes.
use mc_servant.Base.{
  ℕ, ◌+◌, ◌≤◌, ◌≡◌, refl, sym, subst, ◌⊎◌, inl, inr, Bool, true, false, some, List, [], ◌∷◌, All,
  arith, Option-cases, Bool-cases, length, leb, if◌then◌else◌,
}
use mc_servant.Mining.Position.{MineBlockPos, has}
use mc_servant.Mining.World.{World, find_reachable_target}
use mc_servant.Mining.Route.{expand_successors, find_dug_target}
use mc_servant.Mining.Node.{
  MineRouteAction, NodeFields, SearchNode, start, next, fields, action_of, start_node, successor,
  reconstruct_actions, digs_of,
}
use mc_servant.Mining.Heap.Elements.{All-push}
use mc_servant.Mining.Planner.{cheaper, enqueue, widen, solution}
use mc_servant.Mining.Outcome.{MineRoutePlan, Limits}
use mc_servant.Mining.Visited.{StateKey}
use mc_servant.Mining.Legal.{Move, advance, Walk, done, move}
use mc_servant.Mining.Legal.Successors.{Follows, expand_successors-Follows}
use mc_servant.Mining.Legal.Targets.{
  Visible, find_reachable_target-Visible, find_dug_target-has, has-add_all,
}

module _ {B D : Type 0} (w : World B D) where
  -- A solution from `foot`, of at most `max_depth` actions, for one of the positions `targets`.
  pub record Solution (foot : MineBlockPos) (max_depth : ℕ) (targets : List MineBlockPos)
      (p : MineRoutePlan) : Type 0 where
    -- Where the walk ends.
    pub end : NodeFields
    pub walk : Walk w (fields (start_node foot)) p.actions end
    pub final : p.final_foot ≡ end.foot
    pub cost : p.cost ≡ end.cost
    pub short : length p.actions ≤ max_depth
    pub target : has targets p.target ≡ true
    -- The target is dug on the way, or it is seen from the end, within reach.
    pub mined : (has end.planned_air p.target ≡ true) ⊎ Visible w end.foot end.planned_air p.target

  pub length-Walk :
      {f h : NodeFields} {as' : List MineRouteAction}
      → Walk w f as' h
      → h.depth ≡ f.depth + length as'
  length-Walk done = omega arith
  length-Walk (move c m r) = omega (arith, length-Walk r)

  module _ (foot : MineBlockPos) (limits : Limits) (targets : List MineBlockPos) where
    -- A node that the search may hold: its fields are those of the route behind it.
    abbrev pub Good : SearchNode → Type 0
    Good (start f) = f ≡ fields (start_node foot)
    Good (next f parent a) =
        Good parent
        × ((c : ℕ) × (f ≡ advance w (fields parent) a c) × Move w (fields parent) a c)
        × (f.depth ≤ limits.max_depth)

    pub reconstruct_actions-Walk :
        (node : SearchNode) (as' : List MineRouteAction) {h : NodeFields}
        → Good node
        → Walk w (fields node) as' h
        → Walk w (fields (start_node foot)) (reconstruct_actions node as') h
    unfolding reconstruct_actions
    reconstruct_actions-Walk (start f) as' {h} g r = subst (λ f'. Walk w f' as' h) g r
    reconstruct_actions-Walk (next f parent a) as' {h} (g, (c, e, m), d) r =
        reconstruct_actions-Walk parent (a ∷ as') g (move c m (subst (λ f'. Walk w f' as' h) e r))

    pub depth-Good : (node : SearchNode) → Good node → (fields node).depth ≤ limits.max_depth
    depth-Good (start f) g =
        subst (λ (f' : NodeFields). f'.depth ≤ limits.max_depth) (sym g) (omega arith)
    depth-Good (next f parent a) (g, m, d) = d

    successor-Good :
        (node s : SearchNode)
        → Good node
        → leb limits.max_depth (fields node).depth ≡ false
        → Follows w node s
        → Good s
    unfolding successor
    successor-Good node s g d (a, c, e, m) = subst Good (sym e) (g, (c, refl, m), ground arith)

    if-Good :
        (b : Bool) (xs ys : List SearchNode)
        → All Good xs
        → All Good ys
        → All Good (if b then xs else ys)
    if-Good true xs ys h k = h
    if-Good false xs ys h k = k

    enqueue-Good :
        (ss open_nodes : List SearchNode) (visited : List (StateKey × ℕ))
        → All Good ss
        → All Good open_nodes
        → All Good (enqueue w targets ss open_nodes visited).0
    unfolding enqueue
    enqueue-Good [] open_nodes visited h g = g
    enqueue-Good (s ∷ ss) open_nodes visited h g =
        enqueue-Good ss _ _ h.1
          (if-Good _ open_nodes _ g (All-push Good (cheaper w targets) s open_nodes h.0 g))

    All-Follows :
        (node : SearchNode)
        → Good node
        → leb limits.max_depth (fields node).depth ≡ false
        → (ss : List SearchNode) → All (Follows w node) ss
        → All Good ss
    All-Follows node g d [] h = tt
    All-Follows node g d (s ∷ ss) h = (successor-Good node s g d h.0, All-Follows node g d ss h.1)

    pub widen-Good :
        (node : SearchNode) (open_nodes : List SearchNode) (visited : List (StateKey × ℕ))
        → Good node
        → All Good open_nodes
        → All Good (widen w limits targets node open_nodes visited).0
    unfolding widen
    widen-Good node open_nodes visited n g =
        elim (Bool-cases (leb limits.max_depth (fields node).depth)) [
          | inl e ↦ rw e g
          | inr e ↦
              elim (Bool-cases (leb limits.max_planned_air (length (fields node).planned_air))) [
                | inl k ↦ rw (e, k) g
                | inr k ↦
                    rw (e, k)
                      (enqueue-Good (expand_successors w node) open_nodes visited
                        (All-Follows node n e (expand_successors w node)
                          (expand_successors-Follows w node))
                        g)
              ]
        ]

    abbrev pub Mined : SearchNode → MineBlockPos → Type 0
    Mined node t =
        (has targets t ≡ true)
        × ((has (fields node).planned_air t ≡ true)
            ⊎ Visible w (fields node).foot (fields node).planned_air t)

    dug-Mined :
        (node : SearchNode) {t : MineBlockPos}
        → Good node
        → find_dug_target (action_of node) targets ≡ some t
        → Mined node t
    unfolding find_dug_target
    dug-Mined (start f) g e = cc
    dug-Mined (next f parent a) {t} (g, (c, q, m), d) e =
        let (h, k) = find_dug_target-has a targets e in
        (
          h,
          inl (
              subst (λ (f' : NodeFields). has f'.planned_air t ≡ true) (sym q)
                (ground (arith, has-add_all (fields parent).planned_air (digs_of a) t, k))),
        )

    pub solution-Mined :
        (node : SearchNode) {by_dig : Bool} {t : MineBlockPos}
        → Good node
        → solution w targets node ≡ some (by_dig, t)
        → Mined node t
    unfolding solution
    solution-Mined node {by_dig} {t} g e =
        elim (Option-cases (find_dug_target (action_of node) targets)) [
          | inr (u, k) ↦ subst (Mined node) (ground arith) (dug-Mined node g k)
          | inl k ↦
              elim (Option-cases
                (find_reachable_target w (fields node).foot (fields node).planned_air targets)) [
                  | inr (u, q) ↦
                      let (h, v) = find_reachable_target-Visible w _ _ targets q in
                      subst (Mined node) (ground arith) (h, inr v)
                  | inl q ↦ absurd (ground arith)
                ]
        ]
