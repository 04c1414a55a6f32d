-- ===== src/Mining/Heap/Fuel.antt =====
-- The loops of `MinHeap` in ts-core/src/runtime/transport/mining/planner.ts end: with more fuel
-- than they are given they do the same.
use mc_servant.Base.{
  length-set, ℕ, zero, suc, ◌+◌, ◌*◌, ◌/◌, ◌≤◌, ◌<◌, ◌≡◌, ◌⊎◌, refl, sym, inl, inr, Bool, none,
  List, [], ◌∷◌, arith, length, get_elem?, set, Option-cases, ==_iff,
}
use mc_servant.Mining.Heap.{bubble_up, smaller, bubble_down}

get-none : {A : Type 0} (xs : List A) (i : ℕ) → length xs ≤ i → get_elem? xs i ≡ none
get-none [] i h = refl
get-none (x ∷ xs) zero h = absurd (omega arith)
get-none (x ∷ xs) (suc i) h = get-none xs i (omega arith)

module _ {A : Type 0} (less : A → A → Bool) where
  -- Every amount of fuel that is at least the cursor gives the same heap, so `bubbleUp` ends within
  -- as many rounds as its index.
  pub bubble_up-fuel :
      (f g cursor : ℕ) (xs : List A)
      → cursor ≤ f
      → cursor ≤ g
      → bubble_up less f cursor xs ≡ bubble_up less g cursor xs
  unfolding bubble_up
  bubble_up-fuel zero zero cursor xs h k = refl
  bubble_up-fuel zero (suc g) zero xs h k = refl
  bubble_up-fuel zero (suc g) (suc c) xs h k = absurd (omega arith)
  bubble_up-fuel (suc f) zero zero xs h k = refl
  bubble_up-fuel (suc f) zero (suc c) xs h k = absurd (omega arith)
  bubble_up-fuel (suc f) (suc g) zero xs h k = refl
  bubble_up-fuel (suc f) (suc g) (suc c) xs h k = elim (Option-cases (get_elem? xs (suc c))) [
    | inl e ↦ ground arith
    | inr (v, e) ↦ elim (Option-cases (get_elem? xs (c / 2))) [
      | inl q ↦ ground arith
      | inr (p, q) ↦ ground (
        arith,
        bubble_up-fuel f g (c / 2) (set (set xs (suc c) p) (c / 2) v) (omega arith) (omega arith),
      )
    ]
  ]

  smaller-one :
      (xs : List A) (s child : ℕ)
      → (smaller less xs s child ≡ s) ⊎ (smaller less xs s child ≡ child)
  unfolding smaller
  smaller-one xs s child = ground arith

  smallest_grows :
      (xs : List A) (c : ℕ)
      → let s = smaller less xs (smaller less xs c (c * 2 + 1)) (c * 2 + 2) in (s ≡ c) ⊎ (c < s)
  smallest_grows xs c = elim (smaller-one xs (smaller less xs c (c * 2 + 1)) (c * 2 + 2)) [
    | inr e ↦ inr (omega (arith, e))
    | inl e ↦ elim (smaller-one xs c (c * 2 + 1)) [
      | inl q ↦ inl (omega (arith, e, q))
      | inr q ↦ inr (omega (arith, e, q))
    ]
  ]

  past_end : (g cursor : ℕ) (xs : List A) → length xs ≤ cursor → bubble_down less g cursor xs ≡ xs
  unfolding bubble_down
  past_end zero cursor xs h = refl
  past_end (suc g) cursor xs h = ground (arith, get-none xs cursor h)

  -- Every amount of fuel that is at least what the cursor lacks to the length gives the same heap,
  -- so `bubbleDown` ends within as many rounds as the heap has entries.
  pub bubble_down-fuel :
      (f g cursor : ℕ) (xs : List A)
      → length xs ≤ cursor + f
      → length xs ≤ cursor + g
      → bubble_down less f cursor xs ≡ bubble_down less g cursor xs
  unfolding bubble_down
  bubble_down-fuel zero g cursor xs h k = sym (past_end g cursor xs (omega arith))
  bubble_down-fuel (suc f) zero cursor xs h k = past_end (suc f) cursor xs (omega arith)
  bubble_down-fuel (suc f) (suc g) cursor xs h k =
      let s = smaller less xs (smaller less xs cursor (cursor * 2 + 1)) (cursor * 2 + 2) in
      elim (Option-cases (get_elem? xs cursor)) [
        | inl e ↦ ground arith
        | inr (v, e) ↦ elim (smallest_grows xs cursor) [
          | inl q ↦ ground (arith, ==_iff s cursor)
          | inr q ↦ elim (Option-cases (get_elem? xs s)) [
            | inl r ↦ ground arith
            | inr (t, r) ↦ ground (
              arith,
              bubble_down-fuel f g s (set (set xs cursor t) s v)
                  (omega (arith, length-set (set xs cursor t) s v, length-set xs cursor t))
                  (omega (arith, length-set (set xs cursor t) s v, length-set xs cursor t)),
            )
          ]
        ]
      ]
