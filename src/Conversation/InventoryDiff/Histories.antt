-- ===== src/Conversation/InventoryDiff/Histories.antt =====
-- Calls of the cache of ts-core/src/conversation/inventory-diff-cache.ts, in any order.
use Prim.Native.String.{String}
use text.Mathlib.Text.{◌==◌}
use text.Mathlib.TextEquality.{eq_iff}
use mc_servant.Base.{
  ℕ, zero, suc, ◌≡◌, ◌≢◌, refl, ap, sym, subst, ◌∙◌, inl, inr, true, false, Option, none, some,
  List, [], ◌∷◌, ◌++◌, arith, get_elem?, set, All, All-append, Option-cases, Bool-cases,
}
use mc_servant.Base.Maps.{get, get-put}
use mc_servant.Conversation.InventoryDiff.{
  Baseline, PromptContext, Cache, Event, prepare, advance, step, run, prepare_prompt_context,
  create_conversation_inventory_diff_cache,
}
use mc_servant.Conversation.InventoryDiff.Advance.{
  advanced, step-first, step-again, get-set_same, All-set,
}

-- What a cache's baselines and contexts have to do with each other. A bot without a baseline has no
-- context that was advanced; the baseline of any other is the snapshot of one that was.
abbrev pub Grounded : Option Baseline → String → List PromptContext → Type 0
Grounded none bot_id contexts =
    All (λ (p : PromptContext). p.bot_id ≡ bot_id → p.advanced ≡ false) contexts
Grounded (some b) bot_id contexts =
    (index : ℕ) × (p : PromptContext) × (get_elem? contexts index ≡ some p)
    × (p.bot_id ≡ bot_id)
    × (p.advanced ≡ true)
    × (p.current_snapshot ≡ b.snapshot)

get-append :
    {A : Type 0} (xs ys : List A) (i : ℕ) {v : A}
    → get_elem? xs i ≡ some v
    → get_elem? (xs ++ ys) i ≡ some v
get-append [] ys i h = cc
get-append (x ∷ xs) ys zero h = h
get-append (x ∷ xs) ys (suc i) h = get-append xs ys i h

get-set_other :
    {A : Type 0} (xs : List A) (i j : ℕ) (v : A) → i ≢ j → get_elem? (set xs i v) j ≡ get_elem? xs j
get-set_other [] i j v n = refl
get-set_other (x ∷ xs) zero zero v n = absurd (n refl)
get-set_other (x ∷ xs) zero (suc j) v n = refl
get-set_other (x ∷ xs) (suc i) zero v n = refl
get-set_other (x ∷ xs) (suc i) (suc j) v n = get-set_other xs i j v (λ e. n (ap suc e))

prepared-Grounded :
    (o : Option Baseline) (bot_id : String) (contexts : List PromptContext) (p : PromptContext)
    → p.advanced ≡ false
    → Grounded o bot_id contexts
    → Grounded o bot_id (contexts ++ p ∷ [])
prepared-Grounded none bot_id contexts p a h =
    All-append (λ (q : PromptContext). q.bot_id ≡ bot_id → q.advanced ≡ false) contexts (p ∷ []) h
      (λ e. a, tt)
prepared-Grounded (some b) bot_id contexts p a (i, q, e, k, l, m) =
    (i, q, get-append contexts (p ∷ []) i e, k, l, m)

other-Grounded :
    (o : Option Baseline) (bot_id : String) (contexts : List PromptContext) (i : ℕ)
    (p : PromptContext)
    → get_elem? contexts i ≡ some p
    → p.bot_id ≢ bot_id
    → Grounded o bot_id contexts
    → Grounded o bot_id (set contexts i (record p { advanced = true }))
other-Grounded none bot_id contexts i p e n h =
    All-set (λ (q : PromptContext). q.bot_id ≡ bot_id → q.advanced ≡ false) contexts i
      (record p { advanced = true }) (λ x. absurd (n x)) h
other-Grounded (some b) bot_id contexts i p e n (j, q, f, k, l, m) = (
  j,
  q,
  get-set_other contexts i j (record p { advanced = true })
        (λ x. n (ground (arith, ap (get_elem? contexts) x)))
      ∙ f,
  k,
  l,
  m,
)

first-Grounded :
    (c : Cache) (now i : ℕ) (p : PromptContext) (bot_id : String)
    → get_elem? c.contexts i ≡ some p
    → Grounded (get c.baselines bot_id) bot_id c.contexts
    → Grounded (get (advanced c now i p).baselines bot_id) bot_id (advanced c now i p).contexts
first-Grounded c now i p bot_id e h =
    let b : Baseline = record { snapshot = p.current_snapshot; captured_at = now } in
    let after = advanced c now i p in
    let stored = get-put c.baselines p.bot_id b bot_id in
    elim (Bool-cases (p.bot_id == bot_id)) [
      | inl q ↦
          let s : some b ≡ get after.baselines bot_id = ground (arith, stored) in
          subst (λ (o : Option Baseline). Grounded o bot_id after.contexts) s
            (
              i,
              record p { advanced = true },
              get-set_same c.contexts i (record p { advanced = true }) e,
              (eq_iff p.bot_id bot_id).0 q,
              refl,
              refl,
            )
      | inr q ↦
          let s : get c.baselines bot_id ≡ get after.baselines bot_id = ground (arith, stored) in
          subst (λ (o : Option Baseline). Grounded o bot_id after.contexts) s
            (other-Grounded (get c.baselines bot_id) bot_id c.contexts i p e
              (λ x. ground (arith, eq_iff p.bot_id bot_id)) h)
    ]

step-Grounded :
    (c : Cache) (e : Event) (bot_id : String)
    → Grounded (get c.baselines bot_id) bot_id c.contexts
    → let d = step c e in Grounded (get d.baselines bot_id) bot_id d.contexts
unfolding step prepare_prompt_context
step-Grounded c (prepare b inventory) bot_id h =
    prepared-Grounded (get c.baselines bot_id) bot_id c.contexts
      (prepare_prompt_context c.baselines b inventory) refl h
step-Grounded c (advance now i) bot_id h =
    let P : Cache → Type 0 = λ d. Grounded (get d.baselines bot_id) bot_id d.contexts in
    elim (Option-cases (get_elem? c.contexts i)) [
      | inl e ↦ subst P (ground arith) h
      | inr (p, e) ↦ elim (Bool-cases p.advanced) [
        | inl a ↦ subst P (sym (step-again c now i e a)) h
        | inr a ↦ subst P (sym (step-first c now i e a)) (first-Grounded c now i p bot_id e h)
      ]
    ]

run_from-Grounded :
    (c : Cache) (es : List Event) (bot_id : String)
    → Grounded (get c.baselines bot_id) bot_id c.contexts
    → let d = run c es in Grounded (get d.baselines bot_id) bot_id d.contexts
unfolding run
run_from-Grounded c [] bot_id h = h
run_from-Grounded c (e ∷ es) bot_id h =
    run_from-Grounded (step c e) es bot_id (step-Grounded c e bot_id h)

-- In every history of a new cache: a bot without a baseline has no context that was advanced, and
-- the baseline of any other bot is the snapshot of a context of this bot that was advanced.
pub run-Grounded :
    (es : List Event) (bot_id : String)
    → let d = run create_conversation_inventory_diff_cache es in
      Grounded (get d.baselines bot_id) bot_id d.contexts
unfolding get
run-Grounded es bot_id = run_from-Grounded create_conversation_inventory_diff_cache es bot_id tt
