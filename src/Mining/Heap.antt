-- ===== src/Mining/Heap.antt =====
-- ts-core/src/runtime/transport/mining/planner.ts: `MinHeap`, an array whose entry at `i` has its
-- children at `2 * i + 1` and `2 * i + 2`.
pub mod Contents
pub mod Elements
pub mod Fuel
pub mod Order
pub mod Descent
pub mod Least
use mc_servant.Base.{
  ℕ, zero, suc, ◌+◌, ◌*◌, ◌/◌, Bool, true, false, Option, none, some, List, [], ◌∷◌, ◌++◌,
  if◌then◌else◌, length, get_elem?, set, ltb, ◌==◌,
}

abbrev pub init {ℓ} : {A : Type ℓ} → A → List A → List A
init x [] = []
init x (y ∷ ys) = x ∷ init y ys

abbrev pub last {ℓ} : {A : Type ℓ} → A → List A → A
last x [] = x
last x (y ∷ ys) = last y ys

-- `less a b` is `compare(a, b) < 0`.
module _ {A : Type 0} (less : A → A → Bool) where
  -- `bubbleUp`. The cursor at least halves; it is enough fuel.
  unfoldable pub bubble_up : ℕ → ℕ → List A → List A
  bubble_up zero cursor xs = xs
  bubble_up (suc fuel) zero xs = xs
  bubble_up (suc fuel) (suc c) xs = elim (get_elem? xs (suc c)) [
    | none ↦ xs
    | some v ↦ elim (get_elem? xs (c / 2)) [
      | none ↦ xs
      | some p ↦ elim (less v p) [
        | true ↦ bubble_up fuel (c / 2) (set (set xs (suc c) p) (c / 2) v)
        | false ↦ xs
      ]
    ]
  ]

  -- `smallest`, after a look at the entry at `child`.
  unfoldable pub smaller : List A → ℕ → ℕ → ℕ
  smaller xs smallest child =
      if ltb child (length xs)
      then elim (get_elem? xs child) [
        | none ↦ smallest
        | some c ↦ elim (get_elem? xs smallest) [
          | none ↦ smallest
          | some s ↦ if less c s then child else smallest
        ]
      ]
      else smallest

  -- `bubbleDown`. The cursor grows; the length is enough fuel.
  unfoldable pub bubble_down : ℕ → ℕ → List A → List A
  bubble_down zero cursor xs = xs
  bubble_down (suc fuel) cursor xs = elim (get_elem? xs cursor) [
    | none ↦ xs
    | some v ↦
        let smallest = smaller xs (smaller xs cursor (cursor * 2 + 1)) (cursor * 2 + 2) in
        elim (smallest == cursor) [
          | true ↦ xs
          | false ↦ elim (get_elem? xs smallest) [
            | none ↦ xs
            | some s ↦ bubble_down fuel smallest (set (set xs cursor s) smallest v)
          ]
        ]
  ]

  unfoldable pub push : A → List A → List A
  push x xs = bubble_up (length xs) (length xs) (xs ++ x ∷ [])

  unfoldable pub pop : List A → Option (A × List A)
  pop [] = none
  pop (x ∷ []) = some (x, [])
  pop (x ∷ y ∷ ys) =
      let moved = last y ys ∷ init y ys in some (x, bubble_down (length moved) 0 moved)
