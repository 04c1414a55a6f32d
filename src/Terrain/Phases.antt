-- ===== src/Terrain/Phases.antt =====
-- ts-core/src/runtime/transport/terrain/router.ts: `createSearchPhases`.
use mc_servant.Base.{ℕ, Bool, true, false, Option, none, some, List, [], ◌∷◌, ◌++◌, if◌then◌else◌}
use mc_servant.Mining.Outcome.{or_default}
use mc_servant.Terrain.World.{TerrainRouteSearchPhaseName, natural, light_dig, light_place, relaxed}
use mc_servant.Terrain.Candidates.{TerrainSearchPhase}

pub data TerrainRouteProfile : Type 0 where
  normal mining : TerrainRouteProfile

-- A field that is missing is `none`, and so are all fields of a missing budget.
pub record TerrainRouteBudget : Type 0 where
  pub max_total_expanded_states : Option ℕ
  pub max_phase_expanded_states : Option ℕ
  pub phase_max_expanded_states : TerrainRouteSearchPhaseName → Option ℕ
  pub max_planning_ms : Option ℕ
  pub no_progress_step_limit : Option ℕ
  pub phase_no_progress_step_limits : TerrainRouteSearchPhaseName → Option ℕ

-- `a ?? b`, where `b` may be missing as well.
abbrev pub or_else : Option ℕ → Option ℕ → Option ℕ
or_else none o = o
or_else (some n) o = some n

abbrev pub by_profile : TerrainRouteProfile → ℕ → ℕ → ℕ
by_profile mining m n = m
by_profile normal m n = n

module _ (profile : TerrainRouteProfile) (legacy_max_expanded : Option ℕ)
    (budget : TerrainRouteBudget) (max_planned_solid : ℕ) where
  unfoldable pub expanded : TerrainRouteSearchPhaseName → ℕ → ℕ
  expanded name fallback =
      or_default
        (or_else (budget.phase_max_expanded_states name)
          (or_else budget.max_phase_expanded_states legacy_max_expanded))
        fallback

  unfoldable pub no_progress : TerrainRouteSearchPhaseName → ℕ → ℕ
  no_progress name fallback =
      or_default (or_else (budget.phase_no_progress_step_limits name) budget.no_progress_step_limit)
        fallback

  abbrev pub natural_phase : TerrainSearchPhase
  natural_phase = record {
    name = natural;
    allow_dig = false;
    allow_place_up = false;
    max_dig_blocks = 0;
    max_place_blocks = 0;
    max_drop_blocks = 5;
    max_expanded_states = expanded natural (by_profile profile 2000 3000);
    max_no_progress_steps = no_progress natural (by_profile profile 6 3);
  }

  abbrev pub light_dig_phase : TerrainSearchPhase
  light_dig_phase = record {
    name = light_dig;
    allow_dig = true;
    allow_place_up = false;
    max_dig_blocks = by_profile profile 8 2;
    max_place_blocks = 0;
    max_drop_blocks = by_profile profile 16 8;
    max_expanded_states = expanded light_dig (by_profile profile 6000 4000);
    max_no_progress_steps = no_progress light_dig (by_profile profile 10 5);
  }

  abbrev pub light_place_phase : Bool → TerrainSearchPhase
  light_place_phase allow_dig = record {
    name = light_place;
    allow_dig = allow_dig;
    allow_place_up = true;
    max_dig_blocks = by_profile profile 12 2;
    max_place_blocks = 1;
    max_drop_blocks = by_profile profile 24 8;
    max_expanded_states = expanded light_place (by_profile profile 8000 5000);
    max_no_progress_steps = no_progress light_place (by_profile profile 12 5);
  }

  abbrev pub relaxed_phase : Bool → Bool → TerrainSearchPhase
  relaxed_phase allow_dig allow_place_up = record {
    name = relaxed;
    allow_dig = allow_dig;
    allow_place_up = allow_place_up;
    max_dig_blocks = if allow_dig then by_profile profile 48 16 else 0;
    max_place_blocks = if allow_place_up then max_planned_solid else 0;
    max_drop_blocks = by_profile profile 64 16;
    max_expanded_states = expanded relaxed 14000;
    max_no_progress_steps = no_progress relaxed (by_profile profile 16 8);
  }

  unfoldable pub create_search_phases : Bool → Bool → List TerrainSearchPhase
  create_search_phases allow_dig allow_place_up =
      natural_phase
      ∷ ((if allow_dig then light_dig_phase ∷ [] else [])
          ++ ((if allow_place_up then light_place_phase allow_dig ∷ [] else [])
              ++ relaxed_phase allow_dig allow_place_up ∷ []))
