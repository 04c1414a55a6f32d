-- ===== src/Mining/Legal/Successors.antt =====
-- The successors of a node of ts-core/src/runtime/transport/mining/planner.ts are legal moves.
use mc_servant.Base.{
  ℕ, ◌+◌, ◌*◌, ◌≡◌, refl, subst, Bool, true, false, ◌&&◌, Option, none, some, List, [], ◌∷◌, All,
  All-append, arith, length, if◌then◌else◌,
}
use mc_servant.Mining.Position.{MineBlockPos, MineRouteDirection, directions, ahead, up, down}
use mc_servant.Mining.World.{World, has_clearance, collect_clearance_digs}
use mc_servant.Mining.Route.{
  when, some_digs, turn_penalty, walk_successor, drop_successor, jump_successor, dig_walk_successor,
  dig_step_down_successor, dig_step_up_successor, successors_in, successors_from, expand_successors,
}
use mc_servant.Mining.Node.{MineRouteAction, SearchNode, fields, successor}
use mc_servant.Mining.Legal.{Move, Clear, column2, column3, Digs}
use mc_servant.Mining.Legal.Blocks.{
  is_walkable_support-Stands, every_passable-Clear, collect_clearance_digs-Digs,
}

module _ {B D : Type 0} (w : World B D) where
  -- `s` comes from `node` by a possible action, at its cost.
  abbrev pub Follows : SearchNode → SearchNode → Type 0
  Follows node s =
      (a : MineRouteAction) × (c : ℕ) × (s ≡ successor node a c) × Move w (fields node) a c

  All-when :
      (P : SearchNode → Type 0) (b : Bool) (s : SearchNode) → (b ≡ true → P s) → All P (when b s)
  All-when P true s h = (h refl, tt)
  All-when P false s h = tt

  has_clearance-Clear2 :
      (p : MineBlockPos) (as' : List MineBlockPos)
      → has_clearance w p 2 as' ≡ true
      → All (Clear w as') (column2 w p)
  unfolding has_clearance
  has_clearance-Clear2 p as' h = every_passable-Clear w (column2 w p) as' h

  has_clearance-Clear3 :
      (p : MineBlockPos) (as' : List MineBlockPos)
      → has_clearance w p 3 as' ≡ true
      → All (Clear w as') (column3 w p)
  unfolding has_clearance
  has_clearance-Clear3 p as' h = every_passable-Clear w (column3 w p) as' h

  and2 : {a b : Bool} → (a && b) ≡ true → (a ≡ true) × (b ≡ true)
  and2 h = (ground arith, ground arith)

  and3 : {a b c : Bool} → (a && b && c) ≡ true → (a ≡ true) × (b ≡ true) × (c ≡ true)
  and3 h = (ground arith, ground arith, ground arith)

  some_digs-Digs :
      (cells as' : List MineBlockPos) {ds : List MineBlockPos}
      → some_digs (collect_clearance_digs w cells as') ≡ some ds
      → Digs w as' cells ds
  some_digs-Digs cells as' {ds} h = go (collect_clearance_digs w cells as') refl h
    where
      go :
          (o : Option (List MineBlockPos))
          → collect_clearance_digs w cells as' ≡ o
          → some_digs o ≡ some ds
          → Digs w as' cells ds
      go none e k = cc
      go (some []) e k = cc
      go (some (d ∷ rest)) e k =
          subst (Digs w as' cells) (cc) (collect_clearance_digs-Digs w cells as' d rest e)

  module _ (node : SearchNode) (d : MineRouteDirection) where
    walk_successor-Follows : All (Follows node) (walk_successor w node d)
    unfolding walk_successor
    walk_successor-Follows = All-when (Follows node) _ _ (λ h.
        let (s, c) = and2 h in
        (_, _, refl, (refl, is_walkable_support-Stands w _ _ s, has_clearance-Clear2 _ _ c, refl)))

    drop_successor-Follows : All (Follows node) (drop_successor w node d)
    unfolding drop_successor
    drop_successor-Follows = All-when (Follows node) _ _ (λ h.
        let (a, b, s) = and3 h in
        (
          _,
          _,
          refl,
          (
            refl,
            has_clearance-Clear3 _ _ a,
            has_clearance-Clear3 _ _ b,
            is_walkable_support-Stands w _ _ s,
            refl,
          ),
        ))

    jump_successor-Follows : All (Follows node) (jump_successor w node d)
    unfolding jump_successor
    jump_successor-Follows = All-when (Follows node) _ _ (λ h.
        let (a, s, b) = and3 h in
        (
          _,
          _,
          refl,
          (
            refl,
            has_clearance-Clear3 _ _ a,
            is_walkable_support-Stands w _ _ s,
            has_clearance-Clear3 _ _ b,
            refl,
          ),
        ))

    -- Where digs are needed: no node, or one for the digs that were collected.
    with_digs :
        (P : SearchNode → Type 0) (o : Option (List MineBlockPos)) (b : Bool)
        (node_for : List MineBlockPos → SearchNode)
        → ((ds : List MineBlockPos) → o ≡ some ds → b ≡ true → P (node_for ds))
        → All P (elim o [ none ↦ [] | some ds ↦ when b (node_for ds) ])
    with_digs P none b node_for h = tt
    with_digs P (some ds) b node_for h = All-when P b (node_for ds) (h ds refl)

    if_digs :
        (P : SearchNode → Type 0) (b : Bool) (nodes : List SearchNode)
        → (b ≡ true → All P nodes)
        → All P (if b then nodes else [])
    if_digs P true nodes h = h refl
    if_digs P false nodes h = tt

    abbrev ahead_foot : MineBlockPos
    ahead_foot = ahead d (fields node).foot

    abbrev turned : ℕ
    turned = turn_penalty (fields node).last_dir d

    dig_walk_successor-Follows : All (Follows node) (dig_walk_successor w node d)
    unfolding dig_walk_successor
    dig_walk_successor-Follows = if_digs (Follows node) _ _ (λ s.
        with_digs (Follows node) _ true
          (λ ds.
            successor node (MineRouteAction.dig_walk ahead_foot d ds) (22 + 4 * length ds + turned))
          (λ ds k t.
            (_, _, refl, (refl, is_walkable_support-Stands w _ _ s, some_digs-Digs _ _ k, refl))))

    dig_step_down_successor-Follows : All (Follows node) (dig_step_down_successor w node d)
    unfolding dig_step_down_successor
    dig_step_down_successor-Follows =
        with_digs (Follows node) _ _
          (λ ds.
            successor node (MineRouteAction.dig_step_down (down ahead_foot) d ds)
              (12 + 4 * length ds + turned))
          (λ ds k h.
            let (a, s, n) = and3 h in
            (
              _,
              _,
              refl,
              (
                refl,
                has_clearance-Clear2 _ _ a,
                is_walkable_support-Stands w _ _ s,
                some_digs-Digs _ _ k,
                refl,
              ),
            ))

    dig_step_up_successor-Follows : All (Follows node) (dig_step_up_successor w node d)
    unfolding dig_step_up_successor
    dig_step_up_successor-Follows =
        with_digs (Follows node) _ _
          (λ ds.
            successor node (MineRouteAction.dig_step_up (up ahead_foot) d ds)
              (12 + 4 * length ds + 14 + turned))
          (λ ds k h.
            let (a, s, n) = and3 h in
            (
              _,
              _,
              refl,
              (
                refl,
                has_clearance-Clear2 _ _ a,
                is_walkable_support-Stands w _ _ s,
                some_digs-Digs _ _ k,
                refl,
              ),
            ))

    successors_in-Follows : All (Follows node) (successors_in w node d)
    unfolding successors_in
    successors_in-Follows =
        let P = Follows node in
        All-append P _ _ walk_successor-Follows (
          All-append P _ _ drop_successor-Follows (
            All-append P _ _ jump_successor-Follows (
              All-append P _ _ dig_walk_successor-Follows
                (All-append P _ _ dig_step_down_successor-Follows dig_step_up_successor-Follows))))

  successors_from-Follows :
      (node : SearchNode) (ds : List MineRouteDirection)
      → All (Follows node) (successors_from w node ds)
  unfolding successors_from
  successors_from-Follows node [] = tt
  successors_from-Follows node (d ∷ ds) =
      All-append (Follows node) _ _ (successors_in-Follows node d) (successors_from-Follows node ds)

  -- All nodes that `expandSuccessors` returns.
  pub expand_successors-Follows :
      (node : SearchNode) → All (Follows node) (expand_successors w node)
  unfolding expand_successors
  expand_successors-Follows node = successors_from-Follows node directions
