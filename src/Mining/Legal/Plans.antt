-- ===== src/Mining/Legal/Plans.antt =====
-- `planMineRoute` of ts-core/src/runtime/transport/mining/planner.ts returns legal routes.
use Prim.Native.String.{String}
use mc_servant.Base.{
  ℕ, zero, suc, ◌+◌, ◌≤◌, ◌≡◌, refl, subst, inl, inr, Bool, Option, some, List, [], ◌∷◌, All, arith,
  Option-cases, length,
}
use mc_servant.Mining.Position.{MineBlockPos}
use mc_servant.Mining.World.{World, find_reachable_target}
use mc_servant.Mining.Node.{SearchNode, fields, start_node, reconstruct_actions}
use mc_servant.Mining.Heap.{push, pop}
use mc_servant.Mining.Heap.Elements.{All-push, All-pop}
use mc_servant.Mining.Planner.{
  cheaper, widen, solution, solved, search_loop, plan_with, plan_verified, plan_mine_route,
  verified_targets,
}
use mc_servant.Mining.Outcome.{
  MineRouteTarget, MineRoutePlan, Limits, Diagnostic, mine_bfs_targets, mine_bfs_budget, or_default,
}
use mc_servant.Mining.Visited.{StateKey, state_key}
use mc_servant.Mining.Legal.{Walk, done}
use mc_servant.Mining.Legal.Targets.{
  Wanted, verified_targets-Wanted, find_reachable_target-Visible, All-has,
}
use mc_servant.Mining.Legal.Nodes.{
  Solution, length-Walk, Good, Mined, reconstruct_actions-Walk, depth-Good, widen-Good,
  solution-Mined,
}

module _ {B D : Type 0} (w : World B D) where
  module _ (foot : MineBlockPos) (limits : Limits) (targets : List MineBlockPos) where
    abbrev GoodNode : SearchNode → Type 0
    GoodNode = Good w foot limits targets

    solved-Solution :
        (diagnostics : List Diagnostic) (by_dig : Bool) (t : MineBlockPos) (node : SearchNode)
        (expanded : ℕ) {p : MineRoutePlan}
        → GoodNode node
        → Mined w foot limits targets node t
        → (solved w diagnostics (by_dig, t) node expanded).plan ≡ some p
        → Solution w foot limits.max_depth targets p
    unfolding solved
    solved-Solution diagnostics by_dig t node expanded {p} g (h, v) e =
        subst (Solution w foot limits.max_depth targets) (some-eq e) (record {
          end = fields node;
          walk = walked;
          final = refl;
          cost = refl;
          short = omega (arith, length-Walk w walked, depth-Good w foot limits targets node g);
          target = h;
          mined = v;
        })
      where
        walked : Walk w (fields (start_node foot)) (reconstruct_actions node []) (fields node)
        walked = reconstruct_actions-Walk w foot limits targets node [] g done

        some-eq : {q r : MineRoutePlan} → some q ≡ some r → q ≡ r
        some-eq x = cc

    search_loop-Solution :
        (diagnostics : List Diagnostic) (left expanded : ℕ) (open_nodes : List SearchNode)
        (visited : List (StateKey × ℕ)) {p : MineRoutePlan}
        → All GoodNode open_nodes
        → (search_loop w limits diagnostics targets left expanded open_nodes visited).plan ≡ some p
        → Solution w foot limits.max_depth targets p
    unfolding search_loop
    search_loop-Solution diagnostics zero expanded open_nodes visited g e = cc
    search_loop-Solution diagnostics (suc left) expanded open_nodes visited {p} g e =
        elim (Option-cases (pop (cheaper w targets) open_nodes)) [
          | inl k ↦ absurd (ground arith)
          | inr ((node, rest), k) ↦
              let (n, r) = All-pop GoodNode (cheaper w targets) open_nodes k g in
              elim (Option-cases (solution w targets node)) [
                | inr ((by_dig, t), q) ↦
                    solved-Solution diagnostics by_dig t node (suc expanded) n
                      (solution-Mined w foot limits targets node n q) (ground arith)
                | inl q ↦
                    let wide : List SearchNode × List (StateKey × ℕ) =
                      widen w limits targets node rest visited in
                    search_loop-Solution diagnostics left (suc expanded) wide.0 wide.1
                      (widen-Good w foot limits targets node rest visited n r) (ground arith)
              ]
        ]

    -- What the search starts with.
    abbrev header : List Diagnostic
    header =
        mine_bfs_targets (length targets)
        ∷ mine_bfs_budget limits.max_expanded limits.max_depth limits.max_planned_air
        ∷ []

    abbrev first_open : List SearchNode
    first_open = push (cheaper w targets) (start_node foot) []

    abbrev first_visited : List (StateKey × ℕ)
    first_visited = (state_key (start_node foot), 0) ∷ []

    plan_with-Solution :
        {p : MineRoutePlan}
        → (plan_with w foot limits targets).plan ≡ some p
        → Solution w foot limits.max_depth targets p
    unfolding plan_with
    plan_with-Solution {p} e = elim (Option-cases (find_reachable_target w foot [] targets)) [
      | inl k ↦
          search_loop-Solution header limits.max_expanded 0 first_open first_visited
            (All-push GoodNode (cheaper w targets) (start_node foot) [] refl tt) (ground arith)
      | inr (t, k) ↦
          let (h, v) = find_reachable_target-Visible w foot [] targets k in
          subst (Solution w foot limits.max_depth targets) (ground arith) (record {
            end = fields (start_node foot);
            walk = done;
            final = refl;
            cost = refl;
            short = omega arith;
            target = h;
            mined = inr v;
          })
    ]

    search_loop-bounded :
        (diagnostics : List Diagnostic) (left expanded : ℕ) (open_nodes : List SearchNode)
        (visited : List (StateKey × ℕ))
        → (search_loop w limits diagnostics targets left expanded open_nodes
            visited).expanded_states
          ≤ expanded + left
    unfolding search_loop solved
    search_loop-bounded diagnostics zero expanded open_nodes visited = ground arith
    search_loop-bounded diagnostics (suc left) expanded open_nodes visited =
        elim (Option-cases (pop (cheaper w targets) open_nodes)) [
          | inl k ↦ ground arith
          | inr ((node, rest), k) ↦ elim (Option-cases (solution w targets node)) [
            | inr ((by_dig, t), q) ↦ ground arith
            | inl q ↦
                let wide : List SearchNode × List (StateKey × ℕ) =
                  widen w limits targets node rest visited in
                ground (arith, search_loop-bounded diagnostics left (suc expanded) wide.0 wide.1)
          ]
        ]

    plan_with-bounded : (plan_with w foot limits targets).expanded_states ≤ limits.max_expanded
    unfolding plan_with
    plan_with-bounded = elim (Option-cases (find_reachable_target w foot [] targets)) [
      | inl k ↦
          ground (arith, search_loop-bounded header limits.max_expanded 0 first_open first_visited)
      | inr (t, k) ↦ ground arith
    ]

  plan_verified-Solution :
      (foot : MineBlockPos) (max_expanded max_depth max_air : Option ℕ)
      (targets : List MineBlockPos) {p : MineRoutePlan}
      → (plan_verified w foot max_expanded max_depth max_air targets).plan ≡ some p
      → Solution w foot (or_default max_depth 60) targets p
  unfolding plan_verified
  plan_verified-Solution foot max_expanded max_depth max_air [] e = cc
  plan_verified-Solution foot max_expanded max_depth max_air (t ∷ ts) e =
      plan_with-Solution foot _ (t ∷ ts) e

  plan_verified-bounded :
      (foot : MineBlockPos) (max_expanded max_depth max_air : Option ℕ)
      (targets : List MineBlockPos)
      → (plan_verified w foot max_expanded max_depth max_air targets).expanded_states
        ≤ or_default max_expanded 24000
  unfolding plan_verified
  plan_verified-bounded foot max_expanded max_depth max_air [] = ground arith
  plan_verified-bounded foot max_expanded max_depth max_air (t ∷ ts) =
      plan_with-bounded foot _ (t ∷ ts)

  -- A plan that `planMineRoute` returns is a legal route from the start, of at most the maximal
  -- number of actions (60 if none is given), ending at the plan's foot with the plan's cost. Its
  -- target is one of the given positions and holds a block of the wanted name that can be dug; it
  -- is dug on the way, or is in sight and in reach at the end.
  pub plan_mine_route-Solution :
      (block_name : String) (foot : MineBlockPos) (targets : List MineRouteTarget)
      (max_expanded max_depth max_air : Option ℕ) {p : MineRoutePlan}
      → (plan_mine_route w block_name foot targets max_expanded max_depth max_air).plan ≡ some p
      → Solution w foot (or_default max_depth 60) (verified_targets w block_name foot targets) p
        × Wanted w block_name targets p.target
  unfolding plan_mine_route
  plan_mine_route-Solution block_name foot targets max_expanded max_depth max_air {p} e =
      let verified : List MineBlockPos = verified_targets w block_name foot targets in
      let s = plan_verified-Solution foot max_expanded max_depth max_air verified e in
      (
        s,
        All-has (Wanted w block_name targets) verified p.target
            (verified_targets-Wanted w block_name foot targets) s.target,
      )

  -- `planMineRoute` expands no more states than its budget (24000 if none is given), whatever it
  -- returns.
  pub plan_mine_route-bounded :
      (block_name : String) (foot : MineBlockPos) (targets : List MineRouteTarget)
      (max_expanded max_depth max_air : Option ℕ)
      → (plan_mine_route w block_name foot targets max_expanded max_depth max_air).expanded_states
        ≤ or_default max_expanded 24000
  unfolding plan_mine_route
  plan_mine_route-bounded block_name foot targets max_expanded max_depth max_air =
      plan_verified-bounded foot max_expanded max_depth max_air
        (verified_targets w block_name foot targets)
