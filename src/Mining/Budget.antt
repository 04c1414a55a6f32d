-- ===== src/Mining/Budget.antt =====
-- `deriveMineMaxPlannedAir` of ts-core/src/runtime/transport/mining/planner.ts.
use mc_servant.Base.{
  ℕ, ◌+◌, ◌*◌, ◌≤◌, ◌≡◌, ◌⊎◌, inl, inr, true, false, List, [], ◌∷◌, All, arith, Bool-cases,
  if◌then◌else◌, leb,
}
use mc_servant.Mining.Position.{ℤ, leb_int, monus_int, MineBlockPos}
use mc_servant.Mining.Outcome.{derive_mine_max_planned_air, lowest}

monus_antitone : (c a b : ℤ) → leb_int a b ≡ true → monus_int c b ≤ monus_int c a
unfolding leb_int monus_int
monus_antitone c a b h = ground arith

leb_int_total : (a b : ℤ) → leb_int a b ≡ false → leb_int b a ≡ true
unfolding leb_int
leb_int_total a b h = ground arith

monus-min :
    (c a b : ℤ)
    → (monus_int c a ≤ monus_int c (if leb_int a b then a else b))
      × (monus_int c b ≤ monus_int c (if leb_int a b then a else b))
monus-min c a b = elim (Bool-cases (leb_int a b)) [
  | inl e ↦ rw e (omega arith, monus_antitone c a b e)
  | inr e ↦ rw e (monus_antitone c b a (leb_int_total a b e), omega arith)
]

monus-lowest : (c y : ℤ) (ts : List MineBlockPos) → monus_int c y ≤ monus_int c (lowest y ts)
monus-lowest c y [] = omega arith
monus-lowest c y (t ∷ ts) =
    omega (arith, (monus-min c t.y y).1, monus-lowest c (if leb_int t.y y then t.y else y) ts)

-- The drop to the lowest target is the largest.
drops :
    (c y : ℤ) (ts : List MineBlockPos) (m : ℕ)
    → monus_int c (lowest y ts) ≤ m
    → All (λ (t : MineBlockPos). monus_int c t.y * 4 + 8 ≤ m * 4 + 8) ts
drops c y [] m h = tt
drops c y (t ∷ ts) m h =
    let y' : ℤ = if leb_int t.y y then t.y else y in
    (omega (arith, (monus-min c t.y y).0, monus-lowest c y' ts, h), drops c y' ts m h)

at_most :
    (n budget : ℕ) (ts : List MineBlockPos) (c : ℤ)
    → n ≤ budget
    → All (λ (t : MineBlockPos). monus_int c t.y * 4 + 8 ≤ n) ts
    → All (λ (t : MineBlockPos). monus_int c t.y * 4 + 8 ≤ budget) ts
at_most n budget [] c h a = tt
at_most n budget (t ∷ ts) c h a = (omega (arith, a.0), at_most n budget ts c h a.1)

-- The derived budget lies between 16 and 96; unless it is 96, it has room, for every target, for
-- four blocks on each level from the start down to the target, and eight more.
pub derive_mine_max_planned_air-bounds :
    (foot : MineBlockPos) (targets : List MineBlockPos)
    → let budget = derive_mine_max_planned_air foot targets in
      (16 ≤ budget)
      × (budget ≤ 96)
      × ((budget ≡ 96) ⊎ All (λ (t : MineBlockPos). monus_int foot.y t.y * 4 + 8 ≤ budget) targets)
unfolding derive_mine_max_planned_air
derive_mine_max_planned_air-bounds foot targets = (
  ground arith,
  ground arith,
  elim (Bool-cases (leb (derive_mine_max_planned_air foot targets) 95)) [
    | inl e ↦ inr (
        at_most (deepest * 4 + 8) (derive_mine_max_planned_air foot targets) targets foot.y
          (ground arith) (drops foot.y foot.y targets deepest (omega arith)))
    | inr e ↦ inl (ground arith)
  ],
)
  where
    deepest : ℕ
    deepest = monus_int foot.y (lowest foot.y targets)
