-- ===== src/Mining/Legal/Blocks.antt =====
-- The block tests of ts-core/src/runtime/transport/mining/planner.ts mean what a legal route needs.
use mc_servant.Base.{
  ◌≡◌, ◌≢◌, subst, ◌⊎◌, inl, inr, true, false, some, List, [], ◌∷◌, All, arith, Option-cases,
  Bool-cases,
}
use mc_servant.Mining.Position.{MineBlockPos, has, add, has-add, same_pos, same_pos_iff}
use mc_servant.Mining.World.{
  World, is_passable, is_walkable_support, can_dig_block, every_passable, collect_from,
  collect_clearance_digs,
}
use mc_servant.Mining.Legal.{Block, Stands, Clear, Digs}

module _ {B D : Type 0} (w : World B D) where
  is_passable-Clear :
      (p : MineBlockPos) (air : List MineBlockPos) → is_passable w p air ≡ true → Clear w air p
  unfolding is_passable
  is_passable-Clear p air h = elim (Bool-cases (has air p)) [
    | inl e ↦ inl e
    | inr e ↦ elim (Option-cases (w.read_block_at p)) [
      | inl k ↦ ground arith
      | inr (b, k) ↦ inr (b, k, ground arith)
    ]
  ]

  pub is_walkable_support-Stands :
      (p : MineBlockPos) (air : List MineBlockPos)
      → is_walkable_support w p air ≡ true
      → Stands w air p
  unfolding is_walkable_support
  is_walkable_support-Stands p air h = elim (Option-cases (w.read_block_at p)) [
    | inl k ↦ ground arith
    | inr (b, k) ↦ (ground arith, (b, k, ground arith))
  ]

  can_dig_block-Block :
      (p : MineBlockPos) (air : List MineBlockPos)
      → can_dig_block w p air ≡ true
      → (has air p ≡ false) × Block w w.is_diggable_block p
  unfolding can_dig_block
  can_dig_block-Block p air h = elim (Option-cases (w.read_block_at p)) [
    | inl k ↦ ground arith
    | inr (b, k) ↦ (ground arith, (b, k, ground arith))
  ]

  pub every_passable-Clear :
      (ps air : List MineBlockPos) → every_passable w ps air ≡ true → All (Clear w air) ps
  every_passable-Clear [] air h = tt
  every_passable-Clear (p ∷ ps) air h =
      (is_passable-Clear p air (ground arith), every_passable-Clear ps air (ground arith))

  no_member : (q : MineBlockPos) → has [] q ≢ true
  unfolding has
  no_member q e = cc

  -- A dug cell, of the cells `ps`.
  abbrev Dug : List MineBlockPos → List MineBlockPos → MineBlockPos → Type 0
  Dug air ps p = (has air p ≡ false) × (has ps p ≡ true) × Block w w.is_diggable_block p

  -- A cell that was seen, is clear, or is dug.
  abbrev Done : List MineBlockPos → List MineBlockPos → List MineBlockPos → MineBlockPos → Type 0
  Done seen air ds p = (has seen p ≡ true) ⊎ (Clear w air p ⊎ (has ds p ≡ true))

  abbrev Collected :
      List MineBlockPos → List MineBlockPos → List MineBlockPos → List MineBlockPos → Type 0
  Collected seen air ps ds = All (Dug air ps) ds × All (Done seen air ds) ps

  All-map :
      {P Q : MineBlockPos → Type 0} (ps : List MineBlockPos)
      → ((p : MineBlockPos) → P p → Q p)
      → All P ps
      → All Q ps
  All-map [] g h = tt
  All-map (p ∷ ps) g h = (g p h.0, All-map ps g h.1)

  wider :
      (p : MineBlockPos) (ps air : List MineBlockPos) (q : MineBlockPos)
      → Dug air ps q
      → Dug air (p ∷ ps) q
  unfolding has
  wider p ps air q h = (h.0, ground (arith, h.1), h.2)

  has-head : (p : MineBlockPos) (ps : List MineBlockPos) → has (p ∷ ps) p ≡ true
  unfolding has
  has-head p ps = ground (arith, same_pos_iff p p)

  -- A cell behind `p`, once `p` itself is done.
  behind :
      (p : MineBlockPos) (seen air ds ds' : List MineBlockPos) (q : MineBlockPos)
      → ((q : MineBlockPos) → has ds q ≡ true → has ds' q ≡ true)
      → Done seen air ds' p
      → Done (add seen p) air ds q
      → Done seen air ds' q
  behind p seen air ds ds' q more hp (inr (inl c)) = inr (inl c)
  behind p seen air ds ds' q more hp (inr (inr c)) = inr (inr (more q c))
  behind p seen air ds ds' q more hp (inl c) = elim (Bool-cases (same_pos p q)) [
    | inl e ↦ subst (Done seen air ds') ((same_pos_iff p q).0 e) hp
    | inr e ↦ inl (ground (arith, has-add seen p q))
  ]

  add-Done :
      (p : MineBlockPos) (seen ps air ds ds' : List MineBlockPos)
      → ((q : MineBlockPos) → has ds q ≡ true → has ds' q ≡ true)
      → Done seen air ds' p
      → All (Done (add seen p) air ds) ps
      → All (Done seen air ds') (p ∷ ps)
  add-Done p seen ps air ds ds' more hp h =
      (hp, All-map ps (λ q. behind p seen air ds ds' q more hp) h)

  later :
      (p : MineBlockPos) (ds : List MineBlockPos) (q : MineBlockPos)
      → has ds q ≡ true
      → has (p ∷ ds) q ≡ true
  unfolding has
  later p ds q h = ground (arith, h)

  collect_from-Collected :
      (seen ps air : List MineBlockPos) {ds : List MineBlockPos}
      → collect_from w seen ps air ≡ some ds
      → Collected seen air ps ds
  unfolding collect_from
  collect_from-Collected seen [] air {ds} h = subst (Collected seen air []) (nil-eq (h)) (tt, tt)
    where
      nil-eq : some [] ≡ some ds → [] ≡ ds
      nil-eq e = cc
  collect_from-Collected seen (p ∷ ps) air {ds} h =
      elim (Option-cases (collect_from w (add seen p) ps air)) [
        | inl e ↦ absurd (ground arith)
        | inr (ds0, e) ↦
            let (dug, rest) = collect_from-Collected (add seen p) ps air e in
            let dug' = All-map ds0 (λ q. wider p ps air q) dug in
            elim (Bool-cases (has seen p)) [
              | inl k ↦
                  subst (Collected seen air (p ∷ ps)) (ground arith)
                    (dug', add-Done p seen ps air ds0 ds0 (λ q x. x) (inl k) rest)
              | inr k ↦ elim (Bool-cases (is_passable w p air)) [
                | inl m ↦ subst (Collected seen air (p ∷ ps)) (ground arith) (
                  dug',
                  add-Done p seen ps air ds0 ds0 (λ q x. x) (inr (inl (is_passable-Clear p air m)))
                      rest,
                )
                | inr m ↦ elim (Bool-cases (can_dig_block w p air)) [
                  | inl n ↦
                      let (free, block) = can_dig_block-Block p air n in
                      subst (Collected seen air (p ∷ ps)) (ground arith) (
                        ((free, has-head p ps, block), dug'),
                        add-Done p seen ps air ds0 (p ∷ ds0) (later p ds0)
                            (inr (inr (has-head p ds0))) rest,
                      )
                  | inr n ↦ absurd (ground arith)
                ]
              ]
            ]
      ]

  -- The digs that `collectClearanceDigs` returns, if there are any, are those a legal route needs.
  pub collect_clearance_digs-Digs :
      (cells air : List MineBlockPos) (d : MineBlockPos) (ds : List MineBlockPos)
      → collect_clearance_digs w cells air ≡ some (d ∷ ds)
      → Digs w air cells (d ∷ ds)
  unfolding collect_clearance_digs
  collect_clearance_digs-Digs cells air d ds h =
      let (dug, rest) = collect_from-Collected [] cells air h in
      record {
        some_dig = λ e. cc;
        diggable = dug;
        cleared = All-map cells (λ q x. none_seen q x) rest;
      }
    where
      none_seen :
          (q : MineBlockPos) → Done [] air (d ∷ ds) q → Clear w air q ⊎ (has (d ∷ ds) q ≡ true)
      none_seen q (inr x) = x
      none_seen q (inl x) = absurd (no_member q x)
