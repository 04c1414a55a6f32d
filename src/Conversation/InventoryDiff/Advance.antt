-- ===== src/Conversation/InventoryDiff/Advance.antt =====
-- `advanceBaseline` of ts-core/src/conversation/inventory-diff-cache.ts, and what follows it.
use Prim.Native.String.{String}
use text.Mathlib.TextEquality.{eq_iff}
use mc_servant.Base.{
  ℕ, zero, suc, ◌≡◌, ◌≢◌, refl, ap, sym, subst, true, false, Option, none, some, List, [], ◌∷◌,
  arith, get_elem?, set, All,
}
use mc_servant.Base.Maps.{get, put, get-put}
use mc_servant.Conversation.InventoryDiff.Counts.{total, create_inventory_count_map-total}
use mc_servant.Conversation.InventoryDiff.Changes.{Changes, render_inventory_diff-Changes}
use mc_servant.Conversation.InventoryDiff.{
  InventorySummary, ConversationInventoryDiffEntry, Baseline, Baselines, PromptContext, Cache,
  advance, step, create_inventory_count_map, count_of, render_inventory_diff,
  prepare_prompt_context, advance_baseline,
}

Changes-of :
    (f g h k : String → ℕ) (o : Option (List ConversationInventoryDiffEntry))
    → ((x : String) → f x ≡ h x)
    → ((x : String) → g x ≡ k x)
    → Changes f g o
    → Changes h k o
Changes-of f g h k none p q c = λ x. ground (arith, p x, q x, c x)
Changes-of f g h k (some es) p q c = (c.0, c.1, λ x. ground (arith, p x, q x, c.2 x))

-- The line is that for the totals of the two inventories.
render-total :
    (earlier inventory : InventorySummary)
    → Changes (total earlier) (total inventory) (
        render_inventory_diff
          (create_inventory_count_map earlier)
          (create_inventory_count_map inventory))
render-total earlier inventory =
    let f = create_inventory_count_map earlier in
    let g = create_inventory_count_map inventory in
    Changes-of (count_of f) (count_of g) (total earlier) (total inventory)
      (render_inventory_diff f g) (create_inventory_count_map-total earlier)
      (create_inventory_count_map-total inventory) (render_inventory_diff-Changes f g)

module _ {A : Type 0} where
  pub get-set_same :
      (xs : List A) (i : ℕ) {u : A} (v : A)
      → get_elem? xs i ≡ some u
      → get_elem? (set xs i v) i ≡ some v
  get-set_same [] i v h = cc
  get-set_same (x ∷ xs) zero v h = refl
  get-set_same (x ∷ xs) (suc i) v h = get-set_same xs i v h

  set-same : (xs : List A) (i : ℕ) {v : A} → get_elem? xs i ≡ some v → set xs i v ≡ xs
  set-same [] i h = refl
  set-same (x ∷ xs) zero h = ground arith
  set-same (x ∷ xs) (suc i) h = ap (λ ys. x ∷ ys) (set-same xs i h)

  pub All-set : (P : A → Type 0) (xs : List A) (i : ℕ) (v : A) → P v → All P xs → All P (set xs i v)
  All-set P [] i v p h = tt
  All-set P (x ∷ xs) zero v p h = (p, h.1)
  All-set P (x ∷ xs) (suc i) v p h = (h.0, All-set P xs i v p h.1)

-- The cache after a first `advance` of a context.
abbrev pub advanced : Cache → ℕ → ℕ → PromptContext → Cache
advanced c now index context = record {
  baselines =
      put c.baselines context.bot_id
        (record { snapshot = context.current_snapshot; captured_at = now });
  contexts = set c.contexts index (record context { advanced = true });
}

pub step-first :
    (c : Cache) (now index : ℕ) {context : PromptContext}
    → get_elem? c.contexts index ≡ some context
    → context.advanced ≡ false
    → step c (advance now index) ≡ advanced c now index context
unfolding step advance_baseline
step-first c now index h a = ground arith

pub step-again :
    (c : Cache) (now index : ℕ) {context : PromptContext}
    → get_elem? c.contexts index ≡ some context
    → context.advanced ≡ true
    → step c (advance now index) ≡ c
unfolding step advance_baseline
step-again c now index h a = ground (arith, set-same c.contexts index h)

line-known :
    (bs : Baselines) (bot_id : String) (inventory : InventorySummary) {b : Baseline}
    → get bs bot_id ≡ some b
    → (prepare_prompt_context bs bot_id inventory).inventory_change_context
      ≡ render_inventory_diff b.snapshot (create_inventory_count_map inventory)
unfolding prepare_prompt_context
line-known bs bot_id inventory h = ground arith

prepare-same :
    (bs cs : Baselines) (bot_id : String) (inventory : InventorySummary)
    → get bs bot_id ≡ get cs bot_id
    → prepare_prompt_context bs bot_id inventory ≡ prepare_prompt_context cs bot_id inventory
unfolding prepare_prompt_context
prepare-same bs cs bot_id inventory h = ground arith

-- A first `advance` of a context that was prepared for a bot and an inventory: the next context of
-- this bot has the line of the changes from that inventory to the new one; the contexts of other
-- bots are what they were without it; and a second `advance` of the same context changes nothing.
pub advance-prepare :
    (c : Cache) (now later index : ℕ) (baselines : Baselines) (bot_id : String)
    (earlier inventory : InventorySummary)
    → get_elem? c.contexts index ≡ some (prepare_prompt_context baselines bot_id earlier)
    → let after : Cache = step c (advance now index) in
      Changes
        (total earlier)
        (total inventory)
        (prepare_prompt_context after.baselines bot_id inventory).inventory_change_context
      × ((other : String)
          → other ≢ bot_id
          → prepare_prompt_context after.baselines other inventory
            ≡ prepare_prompt_context c.baselines other inventory)
      × (step after (advance later index) ≡ after)
unfolding prepare_prompt_context
advance-prepare c now later index baselines bot_id earlier inventory h =
    let context = prepare_prompt_context baselines bot_id earlier in
    let after = advanced c now index context in
    let b : Baseline = record {
      snapshot = create_inventory_count_map earlier;
      captured_at = now;
    } in
    let stored = get-put c.baselines bot_id b in
    subst
      (λ (d : Cache).
        Changes (total earlier) (total inventory)
          (prepare_prompt_context d.baselines bot_id inventory).inventory_change_context
        × ((other : String)
            → other ≢ bot_id
            → prepare_prompt_context d.baselines other inventory
              ≡ prepare_prompt_context c.baselines other inventory)
        × (step d (advance later index) ≡ d))
      (sym (step-first c now index h refl))
      (
        subst (Changes (total earlier) (total inventory))
            (sym (
              line-known after.baselines bot_id inventory {b = b}
                (ground (arith, stored bot_id, eq_iff bot_id bot_id))))
            (render-total earlier inventory),
        λ other n.
            prepare-same after.baselines c.baselines other inventory
              (ground (arith, stored other, eq_iff bot_id other, n)),
        step-again after later index
            (get-set_same c.contexts index (record context { advanced = true }) h) refl,
      )
