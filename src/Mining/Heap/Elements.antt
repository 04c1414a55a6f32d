-- ===== src/Mining/Heap/Elements.antt =====
-- What holds of all elements of a `MinHeap` of ts-core/src/runtime/transport/mining/planner.ts.
use mc_servant.Base.{
  ℕ, zero, suc, ◌+◌, ◌*◌, ◌/◌, ◌≡◌, Bool, some, List, [], ◌∷◌, ◌++◌, arith, length, get_elem?, set,
  All, All-append, inl, inr, Option-cases,
}
use mc_servant.Mining.Heap.{init, last, bubble_up, smaller, bubble_down, push, pop}

module _ {A : Type 0} (P : A → Type 0) where
  All-set : (xs : List A) (i : ℕ) (v : A) → All P xs → P v → All P (set xs i v)
  All-set [] i v h p = tt
  All-set (x ∷ xs) zero v h p = (p, h.1)
  All-set (x ∷ xs) (suc i) v h p = (h.0, All-set xs i v h.1 p)

  All-get : (xs : List A) (i : ℕ) {v : A} → get_elem? xs i ≡ some v → All P xs → P v
  All-get [] i e h = cc
  All-get (x ∷ xs) zero e h = ground arith
  All-get (x ∷ xs) (suc i) e h = All-get xs i e h.1

  All-swap :
      (xs : List A) (i j : ℕ) {u v : A}
      → get_elem? xs i ≡ some u
      → get_elem? xs j ≡ some v
      → All P xs
      → All P (set (set xs i v) j u)
  All-swap xs i j {u} {v} h k a =
      All-set (set xs i v) j u (All-set xs i v a (All-get xs j k a)) (All-get xs i h a)

  All-init : (x : A) (xs : List A) → P x → All P xs → All P (last x xs ∷ init x xs)
  All-init x [] p h = (p, tt)
  All-init x (y ∷ ys) p h = let (q, r) = All-init y ys h.0 h.1 in (q, (p, r))

  module _ (less : A → A → Bool) where
    All-bubble_up :
        (fuel cursor : ℕ) (xs : List A) → All P xs → All P (bubble_up less fuel cursor xs)
    unfolding bubble_up
    All-bubble_up zero cursor xs h = h
    All-bubble_up (suc fuel) zero xs h = h
    All-bubble_up (suc fuel) (suc c) xs h = elim (Option-cases (get_elem? xs (suc c))) [
      | inl e ↦ ground arith
      | inr (v, e) ↦ elim (Option-cases (get_elem? xs (c / 2))) [
        | inl k ↦ ground arith
        | inr (p, k) ↦ ground (
          arith,
          All-bubble_up fuel (c / 2) (set (set xs (suc c) p) (c / 2) v)
              (All-swap xs (suc c) (c / 2) e k h),
        )
      ]
    ]

    All-bubble_down :
        (fuel cursor : ℕ) (xs : List A) → All P xs → All P (bubble_down less fuel cursor xs)
    unfolding bubble_down
    All-bubble_down zero cursor xs h = h
    All-bubble_down (suc fuel) cursor xs h =
        let s = smaller less xs (smaller less xs cursor (cursor * 2 + 1)) (cursor * 2 + 2) in
        elim (Option-cases (get_elem? xs cursor)) [
          | inl e ↦ ground arith
          | inr (v, e) ↦ elim (Option-cases (get_elem? xs s)) [
            | inl k ↦ ground arith
            | inr (t, k) ↦ ground (
              arith,
              All-bubble_down fuel s (set (set xs cursor t) s v) (All-swap xs cursor s e k h),
            )
          ]
        ]

    pub All-push : (x : A) (xs : List A) → P x → All P xs → All P (push less x xs)
    unfolding push
    All-push x xs p h =
        All-bubble_up (length xs) (length xs) (xs ++ x ∷ []) (All-append P xs (x ∷ []) h (p, tt))

    pub All-pop :
        (xs : List A) {x : A} {rest : List A}
        → pop less xs ≡ some (x, rest)
        → All P xs
        → P x × All P rest
    unfolding pop
    All-pop [] h a = cc
    All-pop (y ∷ []) h a = ground arith
    All-pop (y ∷ z ∷ zs) {x} {rest} h a = ground (
      arith,
      a,
      All-bubble_down (length (last z zs ∷ init z zs)) 0 (last z zs ∷ init z zs)
          (All-init z zs a.1.0 a.1.1),
    )
