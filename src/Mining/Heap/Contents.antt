-- ===== src/Mining/Heap/Contents.antt =====
-- `MinHeap` of ts-core/src/runtime/transport/mining/planner.ts loses and invents nothing.
use mc_servant.Base.{
  ℕ, zero, suc, ◌+◌, ◌*◌, ◌/◌, ◌≡◌, ◌≢◌, refl, ◌∙◌, Bool, some, List, [], ◌∷◌, ◌++◌, arith, length,
  weight, weight-append, get_elem?, set, ◌==◌, inl, inr, Option-cases, Bool-cases, ==_iff,
}
use mc_servant.Mining.Heap.{init, last, bubble_up, smaller, bubble_down, push, pop}

module _ {A : Type 0} (f : A → ℕ) where
  weight-set :
      (xs : List A) (i : ℕ) {u : A} (v : A)
      → get_elem? xs i ≡ some u
      → weight f (set xs i v) + f u ≡ weight f xs + f v
  weight-set [] i v h = cc
  weight-set (x ∷ xs) zero v h = ground arith
  weight-set (x ∷ xs) (suc i) v h = omega (arith, weight-set xs i v h)

get-set_other :
    {A : Type 0} (xs : List A) (i j : ℕ) (v : A) → i ≢ j → get_elem? (set xs i v) j ≡ get_elem? xs j
get-set_other [] i j v h = refl
get-set_other (x ∷ xs) zero zero v h = absurd (h refl)
get-set_other (x ∷ xs) zero (suc j) v h = refl
get-set_other (x ∷ xs) (suc i) zero v h = refl
get-set_other (x ∷ xs) (suc i) (suc j) v h = get-set_other xs i j v (λ e. h (omega (arith, e)))

weight-swap :
    {A : Type 0} (f : A → ℕ) (xs : List A) (i j : ℕ) {u v : A}
    → get_elem? xs i ≡ some u
    → get_elem? xs j ≡ some v
    → i ≢ j
    → weight f (set (set xs i v) j u) ≡ weight f xs
weight-swap f xs i j {u} {v} h k n =
    omega
      (arith, weight-set f xs i v h, weight-set f (set xs i v) j u (get-set_other xs i j v n ∙ k))

init-last :
    {A : Type 0} (f : A → ℕ) (x : A) (xs : List A)
    → weight f (init x xs) + f (last x xs) ≡ f x + weight f xs
init-last f x [] = omega arith
init-last f x (y ∷ ys) = omega (arith, init-last f y ys)

module _ {A : Type 0} (less : A → A → Bool) (f : A → ℕ) where
  weight-bubble_up :
      (fuel cursor : ℕ) (xs : List A) → weight f (bubble_up less fuel cursor xs) ≡ weight f xs
  unfolding bubble_up
  weight-bubble_up zero cursor xs = refl
  weight-bubble_up (suc fuel) zero xs = refl
  weight-bubble_up (suc fuel) (suc c) xs = elim (Option-cases (get_elem? xs (suc c))) [
    | inl e ↦ ground arith
    | inr (v, e) ↦ elim (Option-cases (get_elem? xs (c / 2))) [
      | inl k ↦ ground arith
      | inr (p, k) ↦ ground (
        arith,
        weight-bubble_up fuel (c / 2) (set (set xs (suc c) p) (c / 2) v),
        weight-swap f xs (suc c) (c / 2) e k (λ q. omega (arith, q)),
      )
    ]
  ]

  weight-bubble_down :
      (fuel cursor : ℕ) (xs : List A) → weight f (bubble_down less fuel cursor xs) ≡ weight f xs
  unfolding bubble_down
  weight-bubble_down zero cursor xs = refl
  weight-bubble_down (suc fuel) cursor xs =
      let s = smaller less xs (smaller less xs cursor (cursor * 2 + 1)) (cursor * 2 + 2) in
      elim (Option-cases (get_elem? xs cursor)) [
        | inl e ↦ ground arith
        | inr (v, e) ↦ elim (Bool-cases (s == cursor)) [
          | inl q ↦ ground arith
          | inr q ↦ elim (Option-cases (get_elem? xs s)) [
            | inl k ↦ ground arith
            | inr (t, k) ↦ ground (
              arith,
              weight-bubble_down fuel s (set (set xs cursor t) s v),
              weight-swap f xs cursor s e k (λ d. ground (arith, ==_iff s cursor, d, q)),
            )
          ]
        ]
      ]

  -- A pushed element joins the others: every weight of the elements together grows by its own, so
  -- the elements are those before and the new one, with their multiplicities.
  pub weight-push : (x : A) (xs : List A) → weight f (push less x xs) ≡ f x + weight f xs
  unfolding push
  weight-push x xs =
      omega (
        arith,
        weight-bubble_up (length xs) (length xs) (xs ++ x ∷ []),
        weight-append f xs (x ∷ []),
      )

  -- A popped element and the rest weigh what the elements weighed before, for every weight: so they
  -- are the same elements, with their multiplicities.
  pub weight-pop :
      (xs : List A) {x : A} {rest : List A}
      → pop less xs ≡ some (x, rest)
      → f x + weight f rest ≡ weight f xs
  unfolding pop
  weight-pop [] h = cc
  weight-pop (y ∷ []) h = ground arith
  weight-pop (y ∷ z ∷ zs) h = ground (
    arith,
    weight-bubble_down (length (last z zs ∷ init z zs)) 0 (last z zs ∷ init z zs),
    init-last f z zs,
  )
