-- ===== src/Terrain/Legal/Phases.antt =====
-- `createSearchPhases` of ts-core/src/runtime/transport/terrain/router.ts keeps to what the caller
-- allows.
use mc_servant.Base.{
  ℕ, ◌≤◌, ◌≡◌, refl, Bool, true, false, Option, All, All-append, [], ◌∷◌, arith, if◌then◌else◌,
}
use mc_servant.Terrain.Candidates.{TerrainSearchPhase}
use mc_servant.Terrain.Phases.{
  TerrainRouteProfile, normal, mining, TerrainRouteBudget, by_profile, natural_phase,
  light_dig_phase, light_place_phase, relaxed_phase, create_search_phases,
}

-- A phase digs and places at most what is allowed to the route.
pub record Modest (allow_dig allow_place_up : Bool) (solid : ℕ) (phase : TerrainSearchPhase)
    : Type 0 where
  pub digs : phase.max_dig_blocks ≤ 48
  pub places : phase.max_place_blocks ≤ solid
  pub drops : phase.max_drop_blocks ≤ 64
  pub no_dig : allow_dig ≡ false → phase.allow_dig ≡ false
  pub no_place : allow_place_up ≡ false → phase.allow_place_up ≡ false

by_profile-le : (p : TerrainRouteProfile) (m n k : ℕ) → m ≤ k → n ≤ k → by_profile p m n ≤ k
by_profile-le normal m n k h l = l
by_profile-le mining m n k h l = h

module _ (profile : TerrainRouteProfile) (legacy : Option ℕ) (budget : TerrainRouteBudget)
    (solid : ℕ) (dig place : Bool) where
  natural_phase-Modest : Modest dig place solid (natural_phase profile legacy budget solid)
  natural_phase-Modest = record {
    digs = omega arith;
    places = omega arith;
    drops = omega arith;
    no_dig = λ e. refl;
    no_place = λ e. refl;
  }

  light_dig_phase-Modest :
      dig ≡ true → Modest dig place solid (light_dig_phase profile legacy budget solid)
  light_dig_phase-Modest h = record {
    digs = by_profile-le profile 8 2 48 (omega arith) (omega arith);
    places = omega arith;
    drops = by_profile-le profile 16 8 64 (omega arith) (omega arith);
    no_dig = λ e. ground arith;
    no_place = λ e. refl;
  }

  light_place_phase-Modest :
      1 ≤ solid
      → place ≡ true
      → Modest dig place solid (light_place_phase profile legacy budget solid dig)
  light_place_phase-Modest l h = record {
    digs = by_profile-le profile 12 2 48 (omega arith) (omega arith);
    places = l;
    drops = by_profile-le profile 24 8 64 (omega arith) (omega arith);
    no_dig = λ e. e;
    no_place = λ e. ground arith;
  }

  relaxed_phase-Modest :
      Modest dig place solid (relaxed_phase profile legacy budget solid dig place)
  relaxed_phase-Modest = record {
    digs = ground (arith, by_profile-le profile 48 16 48);
    places = ground arith;
    drops = by_profile-le profile 64 16 64 (omega arith) (omega arith);
    no_dig = λ e. e;
    no_place = λ e. e;
  }

  All-if :
      (P : TerrainSearchPhase → Type 0) (b : Bool) (phase : TerrainSearchPhase)
      → (b ≡ true → P phase)
      → All P (if b then phase ∷ [] else [])
  All-if P true phase h = (h refl, tt)
  All-if P false phase h = tt

  pub create_search_phases-Modest :
      1 ≤ solid
      → All (Modest dig place solid) (create_search_phases profile legacy budget solid dig place)
  unfolding create_search_phases
  create_search_phases-Modest h =
      let P = Modest dig place solid in
      (
        natural_phase-Modest,
        All-append P _ _ (All-if P dig _ light_dig_phase-Modest) (
            All-append P _ _ (All-if P place _ (light_place_phase-Modest h))
              (relaxed_phase-Modest, tt)),
      )
