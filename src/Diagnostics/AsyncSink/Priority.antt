-- ===== src/Diagnostics/AsyncSink/Priority.antt =====
-- Which record ts-core/src/diagnostics/async-sink.ts gives up when its queue is full.
use mc_servant.Base.{
  ℕ, zero, suc, ◌+◌, ◌≤◌, ◌<◌, ◌≡◌, refl, subst, ◌⊎◌, inl, inr, Option, none, some, List, [], ◌∷◌,
  ◌++◌, arith, length, ltb, All, All-append, Bool-cases, get_elem?, weight, weight-append,
}
use mc_servant.Diagnostics.AsyncSink.{Sink, find_lowest, splice, replace_lowest, enqueue}

module _ {R : Type 0} (priority : R → ℕ) where
  -- What the scan does: it keeps the index it had, or finds the first record of lowest priority.
  abbrev Scanned : List R → ℕ → ℕ → Option ℕ → Option ℕ → Type 0
  Scanned rs index lowest before after =
      ((after ≡ before) × All (λ x. lowest ≤ priority x) rs)
      ⊎ ((i : ℕ) × (d : R) × (after ≡ some (index + i))
          × (get_elem? rs i ≡ some d)
          × (priority d < lowest)
          × All (λ x. priority d ≤ priority x) rs)

  All-lower :
      (m n : ℕ) (rs : List R) → m ≤ n → All (λ x. n ≤ priority x) rs → All (λ x. m ≤ priority x) rs
  All-lower m n [] h a = tt
  All-lower m n (r ∷ rs) h a = (omega (arith, a.0), All-lower m n rs h a.1)

  scan_lower :
      (r : R) (rs : List R) (index lowest : ℕ) (before after : Option ℕ)
      → priority r < lowest
      → Scanned rs (suc index) (priority r) (some index) after
      → Scanned (r ∷ rs) index lowest before after
  scan_lower r rs index lowest before after h (inl (e, a)) =
      inr (0, r, ground (arith, e), refl, h, (omega arith, a))
  scan_lower r rs index lowest before after h (inr (i, d, e, g, l, a)) =
      inr (suc i, d, ground (arith, e), g, omega (arith, l, h), (omega (arith, l), a))

  scan_higher :
      (r : R) (rs : List R) (index lowest : ℕ) (before after : Option ℕ)
      → lowest ≤ priority r
      → Scanned rs (suc index) lowest before after
      → Scanned (r ∷ rs) index lowest before after
  scan_higher r rs index lowest before after h (inl (e, a)) = inl (e, (h, a))
  scan_higher r rs index lowest before after h (inr (i, d, e, g, l, a)) =
      inr (suc i, d, ground (arith, e), g, l, (omega (arith, l, h), a))

  find_lowest-Scanned :
      (rs : List R) (index lowest : ℕ) (before : Option ℕ)
      → Scanned rs index lowest before (find_lowest priority rs index lowest before)
  unfolding find_lowest
  find_lowest-Scanned [] index lowest before = inl (refl, tt)
  find_lowest-Scanned (r ∷ rs) index lowest before = elim (Bool-cases (ltb (priority r) lowest)) [
    | inl e ↦ rw e (
        scan_lower r rs index lowest before _ (ground arith)
          (find_lowest-Scanned rs (suc index) (priority r) (some index)))
    | inr e ↦ rw e (
        scan_higher r rs index lowest before _ (ground arith)
          (find_lowest-Scanned rs (suc index) lowest before))
  ]

  weight-splice :
      (f : R → ℕ) (rs : List R) (i : ℕ) {d : R}
      → get_elem? rs i ≡ some d
      → weight f (splice rs i) + f d ≡ weight f rs
  unfolding splice
  weight-splice f [] i h = cc
  weight-splice f (r ∷ rs) zero h = ground arith
  weight-splice f (r ∷ rs) (suc i) h = omega (arith, weight-splice f rs i h)

  All-splice : (P : R → Type 0) (rs : List R) (i : ℕ) → All P rs → All P (splice rs i)
  unfolding splice
  All-splice P [] i h = tt
  All-splice P (r ∷ rs) zero h = h.1
  All-splice P (r ∷ rs) (suc i) h = (h.0, All-splice P rs i h.1)

  -- One record `d` of the queue and the new one is given up, no other is lost, and none that stays
  -- has a lower priority.
  abbrev pub GivesUp : R → List R → List R → Type 0
  GivesUp r before after =
      (d : R) × ((f : R → ℕ) → weight f after + f d ≡ weight f before + f r)
      × All (λ x. priority d ≤ priority x) after

  pub replace_lowest-GivesUp : (r : R) (rs : List R) → GivesUp r rs (replace_lowest priority r rs)
  unfolding replace_lowest
  replace_lowest-GivesUp r rs =
      go (find_lowest priority rs 0 (priority r) none) (find_lowest-Scanned rs 0 (priority r) none)
    where
      go :
          (o : Option ℕ)
          → Scanned rs 0 (priority r) none o
          → GivesUp r rs (elim o [ none ↦ rs | some i ↦ splice rs i ++ r ∷ [] ])
      go none (inl (e, a)) = (r, λ f. refl, a)
      go none (inr (i, d, e, g, l, a)) = cc
      go (some j) (inl (e, a)) = cc
      go (some j) (inr (i, d, e, g, l, a)) = rw (index e) (
        d,
        λ f. omega (arith, weight-append f (splice rs i) (r ∷ []), weight-splice f rs i g),
        All-append (λ x. priority d ≤ priority x) (splice rs i) (r ∷ [])
            (All-splice (λ x. priority d ≤ priority x) rs i a) (omega (arith, l), tt),
      )
        where
          index : some j ≡ some (0 + i) → j ≡ i
          index h = ground arith

length-weight : {R : Type 0} (rs : List R) → weight (λ r. 1) rs ≡ length rs
length-weight [] = refl
length-weight (r ∷ rs) = omega (arith, length-weight rs)

pub length-replace_lowest :
    {R : Type 0} (priority : R → ℕ) (r : R) (rs : List R)
    → length (replace_lowest priority r rs) ≡ length rs
length-replace_lowest priority r rs =
    let (d, w, a) = replace_lowest-GivesUp priority r rs in
    omega (arith, w (λ x. 1), length-weight rs, length-weight (replace_lowest priority r rs))

-- When the queue is full, exactly one record is given up and counted: none that stays in the queue
-- has a lower priority than it, and no other record is lost.
pub enqueue-GivesUp :
    {R : Type 0} (max_queue_size : ℕ) (priority : R → ℕ) (r : R) (s : Sink R)
    → max_queue_size ≤ length s.queue
    → let t = enqueue max_queue_size priority r s in
      (t.dropped_count ≡ suc s.dropped_count) × GivesUp priority r s.queue t.queue
unfolding enqueue
enqueue-GivesUp max_queue_size priority r s h = (
  ground arith,
  subst (GivesUp priority r s.queue) (ground arith) (replace_lowest-GivesUp priority r s.queue),
)
