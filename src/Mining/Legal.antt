-- ===== src/Mining/Legal.antt =====
-- What a legal route is, told apart from the search of
-- ts-core/src/runtime/transport/mining/planner.ts: which blocks each action needs, what it costs.
pub mod Blocks
pub mod Successors
pub mod Targets
pub mod Nodes
pub mod Plans
use mc_servant.Base.{
  ℕ, suc, ◌+◌, ◌*◌, ◌≡◌, ◌≢◌, ◌⊎◌, Bool, true, false, Option, some, List, [], ◌∷◌, All, length,
}
use mc_servant.Mining.Position.{MineBlockPos, MineRouteDirection, ahead, up, down, has, add_all}
use mc_servant.Mining.World.{World}
use mc_servant.Mining.Route.{turn_penalty}
use mc_servant.Mining.Node.{
  MineRouteAction, NodeFields, kind, to_foot, dir, digs_of, walk, drop1, jump_up, dig_walk,
  dig_step_down, dig_step_up,
}

module _ {B D : Type 0} (w : World B D) where
  -- A block that is read, with the fact `q`.
  abbrev pub Block : (B → Bool) → MineBlockPos → Type 0
  Block q p = (b : B) × (w.read_block_at p ≡ some b) × (q b ≡ true)

  -- The bot can stand on `p`: a support that the route does not dig away.
  abbrev pub Stands : List MineBlockPos → MineBlockPos → Type 0
  Stands air p = (has air p ≡ false) × Block w.is_support_block p

  -- The bot can be in `p`: air, or dug on the way.
  abbrev pub Clear : List MineBlockPos → MineBlockPos → Type 0
  Clear air p = (has air p ≡ true) ⊎ Block w.is_air_block p

  -- `ds` is a non-empty part of `cells` that can be dug and is not dug yet, and with it all cells
  -- are clear.
  pub record Digs (air cells ds : List MineBlockPos) : Type 0 where
    pub some_dig : ds ≢ []
    pub diggable :
        All (λ p. (has air p ≡ false) × (has cells p ≡ true) × Block w.is_diggable_block p) ds
    pub cleared : All (λ p. Clear air p ⊎ (has ds p ≡ true)) cells

  abbrev pub column2 : MineBlockPos → List MineBlockPos
  column2 p = p ∷ up p ∷ []

  abbrev pub column3 : MineBlockPos → List MineBlockPos
  column3 p = p ∷ up p ∷ up (up p) ∷ []

  -- The action is possible from a node, at the cost.
  abbrev pub Move : NodeFields → MineRouteAction → ℕ → Type 0
  Move f (walk p d) c =
      (p ≡ ahead d f.foot)
      × Stands f.planned_air (down p)
      × All (Clear f.planned_air) (column2 p)
      × (c ≡ 10 + turn_penalty f.last_dir d)
  Move f (drop1 p d) c =
      (p ≡ down (ahead d f.foot))
      × All (Clear f.planned_air) (column3 f.foot)
      × All (Clear f.planned_air) (column3 p)
      × Stands f.planned_air (down p)
      × (c ≡ 12 + turn_penalty f.last_dir d)
  Move f (jump_up p d) c =
      (p ≡ up (ahead d f.foot))
      × All (Clear f.planned_air) (column3 f.foot)
      × Stands f.planned_air (ahead d f.foot)
      × All (Clear f.planned_air) (column3 p)
      × (c ≡ 14 + turn_penalty f.last_dir d)
  Move f (dig_walk p d ds) c =
      (p ≡ ahead d f.foot)
      × Stands f.planned_air (down p)
      × Digs f.planned_air (column2 p) ds
      × (c ≡ 22 + 4 * length ds + turn_penalty f.last_dir d)
  Move f (dig_step_down p d ds) c =
      (p ≡ down (ahead d f.foot))
      × All (Clear f.planned_air) (column2 f.foot)
      × Stands f.planned_air (down p)
      × Digs f.planned_air (up (up f.foot) ∷ column3 p) ds
      × (c ≡ 12 + 4 * length ds + turn_penalty f.last_dir d)
  Move f (dig_step_up p d ds) c =
      (p ≡ up (ahead d f.foot))
      × All (Clear f.planned_air) (column2 f.foot)
      × Stands f.planned_air (ahead d f.foot)
      × Digs f.planned_air (up (up f.foot) ∷ column3 p) ds
      × (c ≡ 12 + 4 * length ds + 14 + turn_penalty f.last_dir d)

  -- Where the bot is after an action, and what it has dug, paid and counted.
  abbrev pub advance : NodeFields → MineRouteAction → ℕ → NodeFields
  advance f a c = record {
    foot = to_foot a;
    planned_air = add_all f.planned_air (digs_of a);
    cost = f.cost + c;
    last_dir = some (dir a);
    last_action_kind = some (kind a);
    depth = suc f.depth;
  }

  -- A route: one possible action after the other.
  pub data Walk : NodeFields → List MineRouteAction → NodeFields → Type 0 where
    done : {f : NodeFields} → Walk f [] f
    move :
        {f h : NodeFields} {a : MineRouteAction} (c : ℕ) {more : List MineRouteAction}
        → Move f a c
        → Walk (advance f a c) more h
        → Walk f (a ∷ more) h
