-- ===== src/Mining/Outcome.antt =====
-- ts-core/src/runtime/transport/mining/planner.ts: what the search is given and what it returns.
use Prim.Native.String.{String}
use mc_servant.Base.{
  ℕ, zero, suc, ◌+◌, ◌*◌, Bool, Option, none, some, List, [], ◌∷◌, if◌then◌else◌, leb,
}
use mc_servant.Mining.Position.{ℤ, leb_int, monus_int, MineBlockPos}
use mc_servant.Mining.Node.{MineRouteAction, ActionKind, kind}
use mc_servant.Mining.Visited.{same_kind}

pub record MineRouteTarget : Type 0 where
  pub position : MineBlockPos
  pub block_name : String

pub record MineRoutePlan : Type 0 where
  pub actions : List MineRouteAction
  pub target : MineBlockPos
  pub final_foot : MineBlockPos
  pub cost : ℕ

-- The lines of `diagnostics`, by their labels. A solution names its kind (true: by a route dig),
-- cost, actions, expanded states, target and foot.
pub data Diagnostic : Type 0 where
  mine_bfs_targets : ℕ → Diagnostic
  mine_bfs_budget : ℕ → ℕ → ℕ → Diagnostic
  mine_bfs_solved_at_start : MineBlockPos → Diagnostic
  mine_bfs_solved : Bool → ℕ → ℕ → ℕ → MineBlockPos → MineBlockPos → Diagnostic
  mine_bfs_dig_step_down_used mine_bfs_dig_step_up_used : ℕ → Diagnostic
  mine_bfs_no_path : ℕ → Diagnostic

pub record MineRoutePlanResult : Type 0 where
  pub plan : Option MineRoutePlan
  pub diagnostics : List Diagnostic
  pub expanded_states : ℕ

pub record Limits : Type 0 where
  pub max_expanded : ℕ
  pub max_depth : ℕ
  pub max_planned_air : ℕ

abbrev pub lowest : ℤ → List MineBlockPos → ℤ
lowest y [] = y
lowest y (t ∷ ts) = lowest (if leb_int t.y y then t.y else y) ts

abbrev pub max : ℕ → ℕ → ℕ
max a b = if leb a b then b else a

abbrev pub min : ℕ → ℕ → ℕ
min a b = if leb a b then a else b

unfoldable pub derive_mine_max_planned_air : MineBlockPos → List MineBlockPos → ℕ
unfolding monus_int leb_int
derive_mine_max_planned_air start_foot targets =
    let vertical_drop = monus_int start_foot.y (lowest start_foot.y targets) in
    min 96 (max 16 (vertical_drop * 4 + 8))

-- `??` at an option of the caller.
unfoldable pub or_default : Option ℕ → ℕ → ℕ
or_default none n = n
or_default (some m) n = m

abbrev pub count_kind : ActionKind → List MineRouteAction → ℕ
count_kind k [] = 0
count_kind k (a ∷ as') = (if same_kind (kind a) k then 1 else 0) + count_kind k as'

abbrev pub used : (ℕ → Diagnostic) → ℕ → List Diagnostic
used line zero = []
used line (suc n) = line (suc n) ∷ []
