-- ===== src/Mining/Heap/Order.antt =====
-- `MinHeap` of ts-core/src/runtime/transport/mining/planner.ts is a heap: its root is a least
-- element.
use mc_servant.Base.{
  length-set, ℕ, zero, suc, ◌/◌, ◌≤◌, ◌<◌, ◌≡◌, ◌≢◌, refl, ap, subst, length-append, inl, inr, Bool,
  true, false, none, some, List, [], ◌∷◌, ◌++◌, arith, length, get_elem?, set, ◌==◌, Bool-cases,
  ==_iff, if◌then◌else◌,
}
use mc_servant.Mining.Heap.{bubble_up, push}

get-set :
    {A : Type 0} (xs : List A) (i j : ℕ) (v : A)
    → get_elem? (set xs i v) j ≡ (
        if i == j
        then (elim (get_elem? xs i) [ none ↦ none | some u ↦ some v ])
        else get_elem? xs j)
get-set [] i j v = ground arith
get-set (x ∷ xs) zero zero v = refl
get-set (x ∷ xs) zero (suc j) v = ground arith
get-set (x ∷ xs) (suc i) zero v = ground arith
get-set (x ∷ xs) (suc i) (suc j) v = ground (arith, get-set xs i j v)

pub get-in :
    {A : Type 0} (xs : List A) (i : ℕ) → i < length xs → (v : A) × (get_elem? xs i ≡ some v)
get-in [] i h = absurd (omega arith)
get-in (x ∷ xs) zero h = (x, refl)
get-in (x ∷ xs) (suc i) h = get-in xs i (omega arith)

pub get-out : {A : Type 0} (xs : List A) (i : ℕ) {v : A} → get_elem? xs i ≡ some v → i < length xs
get-out [] i h = cc
get-out (x ∷ xs) zero h = omega arith
get-out (x ∷ xs) (suc i) h = omega (arith, get-out xs i h)

-- A swap, seen by the entries.
pub get-swap :
    {A : Type 0} (xs : List A) (i j k : ℕ) {u v : A}
    → get_elem? xs i ≡ some u
    → get_elem? xs j ≡ some v
    → get_elem? (set (set xs i v) j u) k
      ≡ (if j == k then some u else if i == k then some v else get_elem? xs k)
get-swap xs i j k {u} {v} h g =
    ground (arith, get-set (set xs i v) j k u, get-set xs i k v, get-set xs i j v, ==_iff i j)

-- An entry put behind the others.
get-last :
    {A : Type 0} (xs : List A) (x : A) (i : ℕ)
    → get_elem? (xs ++ x ∷ []) i ≡ (if i == length xs then some x else get_elem? xs i)
get-last [] x zero = refl
get-last [] x (suc i) = ground arith
get-last (y ∷ xs) x zero = ground arith
get-last (y ∷ xs) x (suc i) = ground (arith, get-last xs x i)

-- `less` orders strictly and weakly.
pub record Weak {A : Type 0} (less : A → A → Bool) : Type 0 where
  pub asym : (a b : A) → less a b ≡ true → less b a ≡ false
  pub trans : (a b c : A) → less b a ≡ false → less c b ≡ false → less c a ≡ false

-- A heap: no entry is less than its parent; the parent of `suc i` is `i / 2`.
abbrev pub Ordered : {A : Type 0} → (A → A → Bool) → List A → Type 0
Ordered {A} less xs =
    (i : ℕ) (p v : A)
    → get_elem? xs (i / 2) ≡ some p
    → get_elem? xs (suc i) ≡ some v
    → less v p ≡ false

module _ {A : Type 0} (less : A → A → Bool) (o : Weak less) where
  -- A heap but for the edge above `c`; the children of `c` are not less than its parent.
  record Up (xs : List A) (c : ℕ) : Type 0 where
    others :
        (i : ℕ) (p v : A)
        → suc i ≢ c
        → get_elem? xs (i / 2) ≡ some p
        → get_elem? xs (suc i) ≡ some v
        → less v p ≡ false
    over :
        (i d : ℕ) (p v : A)
        → c ≡ suc d
        → i / 2 ≡ c
        → get_elem? xs (d / 2) ≡ some p
        → get_elem? xs (suc i) ≡ some v
        → less v p ≡ false

  Up-step :
      (xs : List A) (c : ℕ) {v p : A}
      → Up xs (suc c)
      → get_elem? xs (suc c) ≡ some v
      → get_elem? xs (c / 2) ≡ some p
      → less v p ≡ true
      → Up (set (set xs (suc c) p) (c / 2) v) (c / 2)
  Up-step xs c {v} {p} h e k l = record {
    others = λ i q u n a b. ground (
      arith,
      get-swap xs (suc c) (c / 2) (i / 2) e k,
      get-swap xs (suc c) (c / 2) (suc i) e k,
      ==_iff (c / 2) (i / 2),
      ==_iff (suc c) (i / 2),
      ==_iff (c / 2) (suc i),
      ==_iff (suc c) (suc i),
      o.asym v p,
      o.trans v p u,
      h.others i p u,
      h.others i q u,
      h.over i c p u,
    );
    over = λ i d q u a b g r. ground (
      arith,
      get-swap xs (suc c) (c / 2) (d / 2) e k,
      get-swap xs (suc c) (c / 2) (suc i) e k,
      ==_iff (c / 2) (d / 2),
      ==_iff (suc c) (d / 2),
      ==_iff (c / 2) (suc i),
      ==_iff (suc c) (suc i),
      o.trans q p u,
      h.others i p u,
      h.others d q p,
      ap (get_elem? xs) a,
    );
  }

  Up-end :
      (xs : List A) (c : ℕ) {v p : A}
      → Up xs (suc c)
      → get_elem? xs (suc c) ≡ some v
      → get_elem? xs (c / 2) ≡ some p
      → less v p ≡ false
      → Ordered less xs
  Up-end xs c {v} {p} h e k l i q u a b = elim (Bool-cases (i == c)) [
    | inl m ↦ ground (
      arith,
      ==_iff i c,
      ap (λ (j : ℕ). get_elem? xs (suc j)) ((==_iff i c).0 m),
      ap (λ (j : ℕ). get_elem? xs (j / 2)) ((==_iff i c).0 m),
    )
    | inr m ↦ h.others i q u (λ n. ground (arith, n, m, ==_iff i c)) a b
  ]

  bubble_up-Ordered :
      (fuel c : ℕ) (xs : List A)
      → c ≤ fuel
      → c < length xs
      → Up xs c
      → Ordered less (bubble_up less fuel c xs)
  unfolding bubble_up
  bubble_up-Ordered zero c xs f b h = λ i p v. h.others i p v (λ e. omega (arith, e))
  bubble_up-Ordered (suc fuel) zero xs f b h = λ i p v. h.others i p v (λ e. omega (arith, e))
  bubble_up-Ordered (suc fuel) (suc c) xs f b h =
      let (v, e) = get-in xs (suc c) b in
      let (p, k) = get-in xs (c / 2) (omega arith) in
      elim (Bool-cases (less v p)) [
        | inl l ↦ subst (Ordered less) (ground (arith, e, k, l)) (
            bubble_up-Ordered fuel (c / 2) (set (set xs (suc c) p) (c / 2) v) (omega arith)
              (omega (arith, length-set (set xs (suc c) p) (c / 2) v, length-set xs (suc c) p))
              (Up-step xs c h e k l))
        | inr l ↦ subst (Ordered less) (ground (arith, e, k, l)) (Up-end xs c h e k l)
      ]

  pushed-Up : (x : A) (xs : List A) → Ordered less xs → Up (xs ++ x ∷ []) (length xs)
  pushed-Up x xs h = record {
    others = λ i p v n a b. ground (
      arith,
      get-last xs x (i / 2),
      get-last xs x (suc i),
      ==_iff (i / 2) (length xs),
      ==_iff (suc i) (length xs),
      h i p v,
      get-out xs (suc i) {v = v},
    );
    over = λ i d p v q a g r.
        ground
          (arith, get-last xs x (suc i), ==_iff (suc i) (length xs), get-out xs (suc i) {v = v});
  }

  -- If `less` orders weakly, a `push` onto a heap leaves a heap: no entry is less than its parent.
  pub push-Ordered : (x : A) (xs : List A) → Ordered less xs → Ordered less (push less x xs)
  unfolding push
  push-Ordered x xs h =
      bubble_up-Ordered (length xs) (length xs) (xs ++ x ∷ []) (omega arith)
        (omega (arith, length-append xs (x ∷ []))) (pushed-Up x xs h)
