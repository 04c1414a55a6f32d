-- ===== src/Mining/Heap/Descent.antt =====
-- `MinHeap.bubbleDown` of ts-core/src/runtime/transport/mining/planner.ts restores the order.
use mc_servant.Base.{
  length-set, ℕ, zero, suc, ◌+◌, ◌*◌, ◌/◌, ◌≤◌, ◌<◌, ◌≡◌, ◌≢◌, ◌⊎◌, refl, sym, ap, subst, ◌∙◌, inl,
  inr, Bool, true, false, Option, some, List, arith, length, get_elem?, set, ◌==◌, Option-cases,
  Bool-cases, ==_iff,
}
use mc_servant.Mining.Heap.Order.{Ordered, Weak, get-swap, get-in, get-out}
use mc_servant.Mining.Heap.{bubble_down, smaller}

module _ {A : Type 0} (less : A → A → Bool) (o : Weak less) where
  -- A heap but for the edges below `c`; the children of `c` are not less than its parent.
  pub record Down (xs : List A) (c : ℕ) : Type 0 where
    pub others :
        (i : ℕ) (p v : A)
        → i / 2 ≢ c
        → get_elem? xs (i / 2) ≡ some p
        → get_elem? xs (suc i) ≡ some v
        → less v p ≡ false
    pub over :
        (i d : ℕ) (p v : A)
        → c ≡ suc d
        → i / 2 ≡ c
        → get_elem? xs (d / 2) ≡ some p
        → get_elem? xs (suc i) ≡ some v
        → less v p ≡ false

  Down-step :
      (xs : List A) (c j : ℕ) {v t : A}
      → Down xs c
      → get_elem? xs c ≡ some v
      → get_elem? xs (suc j) ≡ some t
      → j / 2 ≡ c
      → less t v ≡ true
      → ((i : ℕ) (u : A) → i / 2 ≡ c → get_elem? xs (suc i) ≡ some u → less u t ≡ false)
      → Down (set (set xs c t) (suc j) v) (suc j)
  Down-step xs c j {v} {t} h e k m l least = record {
    others = λ i q u n a b. ground (
      arith,
      get-swap xs c (suc j) (i / 2) e k,
      get-swap xs c (suc j) (suc i) e k,
      ==_iff (suc j) (i / 2),
      ==_iff c (i / 2),
      ==_iff (suc j) (suc i),
      ==_iff c (suc i),
      o.asym t v,
      h.others i q u,
      h.over j i q t,
      least i u,
    );
    over = λ i d q u a b g r. ground (
      arith,
      get-swap xs c (suc j) (d / 2) e k,
      get-swap xs c (suc j) (suc i) e k,
      ==_iff (suc j) (d / 2),
      ==_iff c (d / 2),
      ==_iff (suc j) (suc i),
      ==_iff c (suc i),
      h.others i t u,
      ap (get_elem? xs) b,
    );
  }

  -- What the two looks at the children find.
  abbrev Found : List A → ℕ → A → ℕ → A → Type 0
  Found xs c v s t =
      (((s ≡ c) × (t ≡ v)) ⊎ ((j : ℕ) × (s ≡ suc j) × (j / 2 ≡ c) × (less t v ≡ true)))
      × ((i : ℕ) (u : A) → i / 2 ≡ c → get_elem? xs (suc i) ≡ some u → less u t ≡ false)

  -- One look at a child.
  smaller-cases :
      (xs : List A) (s child : ℕ) {t : A}
      → get_elem? xs s ≡ some t
      → ((smaller less xs s child ≡ s) × ((u : A) → get_elem? xs child ≡ some u → less u t ≡ false))
        ⊎ ((u : A) × (get_elem? xs child ≡ some u)
            × (less u t ≡ true)
            × (smaller less xs s child ≡ child))
  unfolding smaller
  smaller-cases xs s child {t} e = elim (Option-cases (get_elem? xs child)) [
    | inl k ↦ inl (ground arith, λ u q. cc)
    | inr (u, k) ↦
        let inside = get-out xs child k in
        elim (Bool-cases (less u t)) [
          | inl l ↦ inr (u, k, l, ground (arith, inside))
          | inr l ↦ inl (ground (arith, inside), λ x q. ground arith)
        ]
  ]

  siblings :
      (xs : List A) (c : ℕ) (t : A)
      → ((u : A) → get_elem? xs (c * 2 + 1) ≡ some u → less u t ≡ false)
      → ((u : A) → get_elem? xs (c * 2 + 2) ≡ some u → less u t ≡ false)
      → (i : ℕ) (u : A) → i / 2 ≡ c
      → get_elem? xs (suc i) ≡ some u
      → less u t ≡ false
  siblings xs c t h k i u d e = elim (Bool-cases (i == c * 2)) [
    | inl q ↦ h u (ap (get_elem? xs) (left ((==_iff i (c * 2)).0 q)) ∙ e)
    | inr q ↦ k u (ap (get_elem? xs) (right (λ x. ground (arith, x, q, ==_iff i (c * 2)))) ∙ e)
  ]
    where
      left : i ≡ c * 2 → c * 2 + 1 ≡ suc i
      left x = omega (arith, x)

      right : i ≢ c * 2 → c * 2 + 2 ≡ suc i
      right x = omega (arith, x, d)

  self : (t u : A) (o1 : Option A) → o1 ≡ some t → o1 ≡ some u → less u t ≡ false
  self t u o1 h k = ground (arith, o.asym t t)

  smallest-Found :
      (xs : List A) (c : ℕ) {v : A}
      → get_elem? xs c ≡ some v
      → let s = smaller less xs (smaller less xs c (c * 2 + 1)) (c * 2 + 2) in
        (t : A) × (get_elem? xs s ≡ some t) × Found xs c v s t
  smallest-Found xs c {v} e = elim (smaller-cases xs c (c * 2 + 1) e) [
    | inl (p, h) ↦ rw p (elim (smaller-cases xs c (c * 2 + 2) e) [
      | inl (q, k) ↦ rw q (v, e, (inl (refl, refl), siblings xs c v h k))
      | inr (r, g, l, q) ↦ rw q (
        r,
        g,
        (
          inr (c * 2 + 1, omega arith, omega arith, l),
          siblings xs c r (λ u a. ground (arith, h u a, o.asym r v, o.trans r v u))
              (λ u a. self r u (get_elem? xs (c * 2 + 2)) g a),
        ),
      )
    ])
    | inr (y, f, m, p) ↦ rw p (elim (smaller-cases xs (c * 2 + 1) (c * 2 + 2) f) [
      | inl (q, k) ↦ rw q (
        y,
        f,
        (
          inr (c * 2, omega arith, omega arith, m),
          siblings xs c y (λ u a. self y u (get_elem? xs (c * 2 + 1)) f a) k,
        ),
      )
      | inr (r, g, l, q) ↦ rw q (
        r,
        g,
        (
          inr (
            c * 2 + 1,
            omega arith,
            omega arith,
            ground (arith, Bool-cases (less r v), o.asym y v, o.trans y v r),
          ),
          siblings xs c r (λ u a. ground (arith, o.asym r y, f, a))
              (λ u a. self r u (get_elem? xs (c * 2 + 2)) g a),
        ),
      )
    ])
  ]

  Down-end :
      (xs : List A) (c : ℕ) {v : A}
      → Down xs c
      → get_elem? xs c ≡ some v
      → ((i : ℕ) (u : A) → i / 2 ≡ c → get_elem? xs (suc i) ≡ some u → less u v ≡ false)
      → Ordered less xs
  Down-end xs c {v} h e least i p u a b = elim (Bool-cases (i / 2 == c)) [
    | inl q ↦
        ground (arith, least i u, ==_iff (i / 2) c, ap (get_elem? xs) ((==_iff (i / 2) c).0 q))
    | inr q ↦ h.others i p u (λ x. ground (arith, x, q, ==_iff (i / 2) c)) a b
  ]

  -- Bubbled down, a heap but for the edges below the cursor is a heap.
  pub bubble_down-Ordered :
      (fuel c : ℕ) (xs : List A)
      → length xs ≤ c + fuel
      → c < length xs
      → Down xs c
      → Ordered less (bubble_down less fuel c xs)
  unfolding bubble_down
  bubble_down-Ordered zero c xs f b h = absurd (omega arith)
  bubble_down-Ordered (suc fuel) c xs f b h =
      let (v, e) = get-in xs c b in
      let s = smaller less xs (smaller less xs c (c * 2 + 1)) (c * 2 + 2) in
      let (t, k, (found, least)) = smallest-Found xs c e in
      elim found [
        | inl (q, r) ↦
            subst (Ordered less) (ground (arith, e, q, ==_iff s c))
              (Down-end xs c h e (λ i u d g. ground (arith, least i u d g, r)))
        | inr (j, q, d, l) ↦ subst (Ordered less) (ground (arith, e, k, q, d, ==_iff s c)) (
            bubble_down-Ordered fuel s (set (set xs c t) s v)
              (omega (arith, q, d, f, length-set (set xs c t) s v, length-set xs c t))
              (omega (arith, get-out xs s k, length-set (set xs c t) s v, length-set xs c t))
              (subst (λ n. Down (set (set xs c t) n v) n) (sym q)
                (Down-step xs c j h e (ap (get_elem? xs) (sym q) ∙ k) d l least)))
      ]
