-- ===== src/Mining/Heap/Least.antt =====
-- `MinHeap.pop` of ts-core/src/runtime/transport/mining/planner.ts returns a least element, and
-- leaves a heap.
use mc_servant.Base.{
  ℕ, zero, suc, ◌/◌, ◌≤◌, ◌≡◌, ◌≢◌, refl, subst, Bool, false, some, List, [], ◌∷◌, arith, length,
  get_elem?, All,
}
use mc_servant.Mining.Heap.Elements.{All-pop}
use mc_servant.Mining.Heap.Order.{Ordered, Weak, get-in, get-out}
use mc_servant.Mining.Heap.Descent.{Down, bubble_down-Ordered}
use mc_servant.Mining.Heap.{init, last, pop}

module _ {A : Type 0} (less : A → A → Bool) (o : Weak less) where
  get-moved :
      (x l y : A) (ys : List A) (i : ℕ) {v : A}
      → i ≢ 0
      → get_elem? (l ∷ init y ys) i ≡ some v
      → get_elem? (x ∷ y ∷ ys) i ≡ some v
  get-moved x l y ys zero n h = absurd (n refl)
  get-moved x l y [] (suc i) n h = cc
  get-moved x l y (z ∷ zs) (suc zero) n h = h
  get-moved x l y (z ∷ zs) (suc (suc i)) n h = get-moved y l z zs (suc i) (λ e. omega (arith, e)) h

  moved-Down :
      (x y : A) (ys : List A) → Ordered less (x ∷ y ∷ ys) → Down less o (last y ys ∷ init y ys) 0
  moved-Down x y ys h = record {
    others = λ i p v n a b.
        h i p v (get-moved x (last y ys) y ys (i / 2) n a)
          (get-moved x (last y ys) y ys (suc i) (λ e. omega (arith, e)) b);
    over = λ i d p v q a g r. absurd (omega (arith, q));
  }

  at_root :
      (xs : List A) (n i : ℕ) (r v : A)
      → Ordered less xs
      → i ≤ n
      → get_elem? xs 0 ≡ some r
      → get_elem? xs i ≡ some v
      → less v r ≡ false
  at_root xs n zero r v h l a b = ground (arith, o.asym r r)
  at_root xs zero (suc i) r v h l a b = absurd (omega arith)
  at_root xs (suc n) (suc i) r v h l a b =
      let (p, k) = get-in xs (i / 2) (omega (arith, get-out xs (suc i) b)) in
      o.trans r p v (at_root xs n (i / 2) r p h (omega arith) a k) (h i p v k b)

  All-get :
      (P : A → Type 0) (xs : List A) → ((i : ℕ) (v : A) → get_elem? xs i ≡ some v → P v) → All P xs
  All-get P [] h = tt
  All-get P (x ∷ xs) h = (h 0 x refl, All-get P xs (λ i v e. h (suc i) v e))

  empty-Ordered : Ordered less []
  empty-Ordered i p v a b = cc

  pop-Ordered :
      (xs : List A) {x : A} {rest : List A}
      → pop less xs ≡ some (x, rest)
      → Ordered less xs
      → (get_elem? xs 0 ≡ some x) × Ordered less rest
  unfolding pop
  pop-Ordered [] e h = cc
  pop-Ordered (y ∷ []) {x} {rest} e h =
      let q : [] ≡ rest = ground arith in (ground arith, subst (Ordered less) q empty-Ordered)
  pop-Ordered (y ∷ z ∷ zs) e h =
      let moved : List A = last z zs ∷ init z zs in
      (
        ground arith,
        subst (Ordered less) (ground arith) (
            bubble_down-Ordered less o (length moved) 0 moved (omega arith) (omega arith)
              (moved-Down y z zs h)),
      )

  -- If `less` orders weakly, a `pop` of a heap returns an element that no other is less than, and
  -- what stays is a heap.
  pub pop-least :
      (xs : List A) {x : A} {rest : List A}
      → pop less xs ≡ some (x, rest)
      → Ordered less xs
      → All (λ y. less y x ≡ false) rest × Ordered less rest
  pop-least xs {x} {rest} e h =
      let (r, k) = pop-Ordered xs e h in
      let P : A → Type 0 = λ y. less y x ≡ false in
      let all : All P xs = All-get P xs (λ i v a. at_root xs i i x v h (omega arith) r a) in
      ((All-pop P less xs e all).1, k)
