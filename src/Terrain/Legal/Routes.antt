-- ===== src/Terrain/Legal/Routes.antt =====
-- `planTerrainRoute` of ts-core/src/runtime/transport/terrain/router.ts over all its phases.
use mc_servant.Base.{
  ℕ, ◌+◌, ◌-◌, ◌≤◌, ◌≡◌, refl, subst, inl, inr, Bool, true, false, ◌||◌, Option, none, some, List,
  [], ◌∷◌, ◌++◌, All, arith, Option-cases, Bool-cases, length, leb, if◌then◌else◌,
}
use mc_servant.Mining.Position.{has}
use mc_servant.Terrain.Action.{TerrainBlockPos, SearchNode}
use mc_servant.Terrain.World.{World, is_goal}
use mc_servant.Terrain.Candidates.{TerrainSearchPhase}
use mc_servant.Terrain.Phases.{normal}
use mc_servant.Terrain.Search.{search_terrain_phase}
use mc_servant.Terrain.Outcome.{TerrainRoutePlan, Diagnostic, PhaseInput}
use mc_servant.Terrain.Router.{
  RouteOptions, get_or, goal_of, max_depth_of, max_planned_solid_of, phases_of, start_node, no_path,
  remaining_of, reached, phase_input, try_phases, plan_terrain_route,
}
use mc_servant.Terrain.Legal.{
  Legal, first_ground, foot_after, cost_total, dig_total, place_total, drop_total,
}
use mc_servant.Terrain.Legal.Nodes.{Good}
use mc_servant.Terrain.Legal.Plans.{Found, search_terrain_phase-Found}
use mc_servant.Terrain.Legal.Budget.{search_terrain_phase-bounded}
use mc_servant.Terrain.Legal.Phases.{Modest, create_search_phases-Modest}

module _ {B D : Type 0} (w : World B D) where
  -- What a phase finds has `P`.
  abbrev Finds : (TerrainRoutePlan → Type 0) → PhaseInput D → SearchNode → Type 0
  Finds P input node =
      (remaining : Option ℕ) (p : TerrainRoutePlan)
      → (search_terrain_phase w input remaining node).plan ≡ some p
      → P p

  module _ (input : TerrainSearchPhase → PhaseInput D) (node : SearchNode) (max_ms : Option ℕ)
      (count : ℕ) where
    try_phases-finds :
        (P : TerrainRoutePlan → Type 0) (max_total : Option ℕ) (phases : List TerrainSearchPhase)
        (diagnostics : List (Diagnostic D)) (total : ℕ) (exhausted : Bool) {p : TerrainRoutePlan}
        → All (λ phase. Finds P (input phase) node) phases
        → (try_phases w input node max_ms max_total count phases diagnostics total exhausted).plan
          ≡ some p
        → P p
    unfolding try_phases no_path
    try_phases-finds P max_total [] diagnostics total exhausted h e = ground arith
    try_phases-finds P max_total (phase ∷ phases) diagnostics total exhausted {p} h e =
        elim (Option-cases (reached w max_total total)) [
          | inr (m, k) ↦ absurd (ground arith)
          | inl k ↦
              let r = search_terrain_phase w (input phase) (remaining_of w max_total total) node in
              elim (Option-cases r.plan) [
                | inr (q, k') ↦ h.0 (remaining_of w max_total total) p (ground arith)
                | inl k' ↦ elim (Option-cases (reached w max_ms (w.elapsed_after phase.name))) [
                  | inr (ms, k'') ↦ absurd (ground arith)
                  | inl k'' ↦
                      try_phases-finds P max_total phases (diagnostics ++ r.diagnostics)
                        (total + r.expanded_states) (exhausted || r.budget_exhausted) h.1
                        (ground arith)
                ]
              ]
        ]

    try_phases-bounded :
        (m : ℕ) (phases : List TerrainSearchPhase) (diagnostics : List (Diagnostic D)) (total : ℕ)
        (exhausted : Bool)
        → total ≤ m
        → (try_phases w input node max_ms
            (some m)
            count
            phases
            diagnostics
            total
            exhausted).expanded_states
          ≤ m
    unfolding try_phases no_path
    try_phases-bounded m [] diagnostics total exhausted h = ground arith
    try_phases-bounded m (phase ∷ phases) diagnostics total exhausted h =
        elim (Bool-cases (leb m total)) [
          | inl k ↦ ground arith
          | inr k ↦
              let r = search_terrain_phase w (input phase) (some (m - total)) node in
              let b = search_terrain_phase-bounded w (input phase) (m - total) node in
              let total' = total + r.expanded_states in
              let rest =
                try_phases-bounded m phases (diagnostics ++ r.diagnostics) total'
                  (exhausted || r.budget_exhausted) (ground arith) in
              elim (Option-cases r.plan) [
                | inr (q, k') ↦ ground arith
                | inl k' ↦ elim (Option-cases (reached w max_ms (w.elapsed_after phase.name))) [
                  | inr (ms, k'') ↦ ground arith
                  | inl k'' ↦ ground (arith, rest)
                ]
              ]
        ]

  capped : (b : Bool) (n most : ℕ) → n ≤ most → (b ≡ false → n ≡ 0) → n ≤ (if b then most else 0)
  capped true n most h k = h
  capped false n most h k = omega (arith, k refl)

  -- A route from `foot` to `target`, within what the options allow.
  pub record Solution (foot target : TerrainBlockPos) (o : RouteOptions D) (p : TerrainRoutePlan)
      : Type 0 where
    pub legal : Legal w (first_ground w) foot p.actions
    pub final : p.final_foot ≡ foot_after foot p.actions
    pub goal : is_goal w (goal_of w o target) p.final_foot ≡ true
    pub cost : p.cost ≡ cost_total none p.actions
    pub short : length p.actions ≤ max_depth_of w o foot target
    pub digs : dig_total p.actions ≤ (if get_or o.allow_dig true then 48 else 0)
    pub places :
        place_total p.actions
        ≤ (if get_or o.allow_place_up true then max_planned_solid_of w foot target else 0)
    pub drops : drop_total p.actions ≤ 64

  module _ (foot target : TerrainBlockPos) (o : RouteOptions D) where
    start-Good : (input : PhaseInput D) → Good w foot input (start_node w (goal_of w o target) foot)
    unfolding has
    start-Good input = record {
      ground = refl;
      foot = refl;
      cost = refl;
      last = refl;
      depth = refl;
      dig_count = refl;
      place_count = refl;
      drop_count = refl;
    }

    Found-Solution :
        (phase : TerrainSearchPhase) (p : TerrainRoutePlan)
        → Modest
            (get_or o.allow_dig true)
            (get_or o.allow_place_up true)
            (max_planned_solid_of w foot target)
            phase
        → Found w foot (phase_input w o foot target phase) p
        → Solution foot target o p
    Found-Solution phase p m s = record {
      legal = s.legal;
      final = s.final;
      goal = s.goal;
      cost = s.cost;
      short = s.short;
      digs =
          capped (get_or o.allow_dig true) _ 48 (omega (arith, s.digs, m.digs))
            (λ e. s.no_dig (m.no_dig e));
      places =
          capped (get_or o.allow_place_up true) _ (max_planned_solid_of w foot target)
            (omega (arith, s.places, m.places)) (λ e. s.no_place (m.no_place e));
      drops = omega (arith, s.drops, m.drops);
    }

    all-Finds :
        (phases : List TerrainSearchPhase)
        → All
            (Modest
              (get_or o.allow_dig true)
              (get_or o.allow_place_up true)
              (max_planned_solid_of w foot target))
            phases
        → All
            (λ phase.
              Finds
                (Solution foot target o)
                (phase_input w o foot target phase)
                (start_node w (goal_of w o target) foot))
            phases
    all-Finds [] h = tt
    all-Finds (phase ∷ phases) h = (
      λ remaining p e. Found-Solution phase p h.0 (
          search_terrain_phase-Found w foot (phase_input w o foot target phase) remaining
            (start_node w (goal_of w o target) foot)
            (start-Good (phase_input w o foot target phase)) e),
      all-Finds phases h.1,
    )

    at_goal-Solution :
        {p : TerrainRoutePlan}
        → is_goal w (goal_of w o target) foot ≡ true
        → record { actions = []; final_foot = foot; cost = 0 } ≡ p
        → Solution foot target o p
    at_goal-Solution h e = subst (Solution foot target o) e (record {
      legal = tt;
      final = refl;
      goal = h;
      cost = refl;
      short = omega arith;
      digs = omega arith;
      places = omega arith;
      drops = omega arith;
    })

    -- A plan that `planTerrainRoute` returns is a legal route: each action digs only blocks that can
    -- be dug and places only on a support, and after each the bot stands on a support with room for
    -- its body, in the ground as the actions so far have left it. The route ends at the plan's foot,
    -- which meets the goal, has the plan's cost, and is no longer than the maximal depth. It digs at
    -- most 48 blocks, or none if digging is not allowed; it places at most the maximal number of
    -- blocks, or none if placing is not allowed; and it drops at most 64 times.
    pub plan_terrain_route-Solution :
        {p : TerrainRoutePlan}
        → (plan_terrain_route w foot target o).plan ≡ some p
        → Solution foot target o p
    unfolding plan_terrain_route
    plan_terrain_route-Solution {p} e = elim (Bool-cases (is_goal w (goal_of w o target) foot)) [
      | inl k ↦ at_goal-Solution k (ground arith)
      | inr k ↦
          let phases = phases_of w o foot target in
          try_phases-finds (phase_input w o foot target) (start_node w (goal_of w o target) foot)
            o.route_budget.max_planning_ms (length phases) (Solution foot target o)
            o.route_budget.max_total_expanded_states phases [] 0 false
            (all-Finds phases (
              create_search_phases-Modest (get_or o.route_profile normal) o.max_expanded_states
                o.route_budget (max_planned_solid_of w foot target) (get_or o.allow_dig true)
                (get_or o.allow_place_up true) (ground arith)))
            (ground arith)
    ]

    -- With a maximal total of expanded states, all phases together expand no more than that,
    -- whatever `planTerrainRoute` returns.
    pub plan_terrain_route-bounded :
        (m : ℕ)
        → o.route_budget.max_total_expanded_states ≡ some m
        → (plan_terrain_route w foot target o).expanded_states ≤ m
    unfolding plan_terrain_route
    plan_terrain_route-bounded m e = elim (Bool-cases (is_goal w (goal_of w o target) foot)) [
      | inl k ↦ ground arith
      | inr k ↦
          let phases = phases_of w o foot target in
          ground (
            arith,
            try_phases-bounded (phase_input w o foot target)
                (start_node w (goal_of w o target) foot) o.route_budget.max_planning_ms
                (length phases) m phases [] 0 false (omega arith),
          )
    ]
