-- ===== src/Mining/Legal/Targets.antt =====
-- Which blocks ts-core/src/runtime/transport/mining/planner.ts takes for targets, and finds.
use Prim.Native.String.{String}
use text.Mathlib.Text.{◌==◌ as str_eq}
use mc_servant.Base.{
  ◌≡◌, refl, subst, inl, inr, Bool, true, false, ◌&&◌, ◌||◌, Option, none, some, List, [], ◌∷◌, map,
  All, arith, Option-cases, Bool-cases, if◌then◌else◌,
}
use mc_servant.Mining.Position.{MineBlockPos, has, add_all, has-add, same_pos, same_pos_iff, add}
use mc_servant.Mining.World.{
  World, verify_target_is_readable, ray_clear_to, find_reachable_from, find_reachable_target,
}
use mc_servant.Mining.Route.{find_target, find_dug_in, find_dug_target}
use mc_servant.Mining.Node.{MineRouteAction, digs_of}
use mc_servant.Mining.Planner.{
  readable_targets, insert_by_distance, sort_by_distance, verified_targets,
}
use mc_servant.Mining.Outcome.{MineRouteTarget}
use mc_servant.Mining.Legal.{Block}

pub has-add_all :
    (qs ps : List MineBlockPos) (q : MineBlockPos) → has (add_all qs ps) q ≡ (has qs q || has ps q)
unfolding add_all has
has-add_all qs [] q = ground arith
has-add_all qs (p ∷ ps) q = ground (arith, has-add_all (add qs p) ps q, has-add qs p q)

pub All-has :
    (P : MineBlockPos → Type 0) (ps : List MineBlockPos) (p : MineBlockPos)
    → All P ps
    → has ps p ≡ true
    → P p
unfolding has
All-has P [] p h e = cc
All-has P (q ∷ qs) p h e = elim (Bool-cases (same_pos q p)) [
  | inl k ↦ subst P ((same_pos_iff q p).0 k) h.0
  | inr k ↦ All-has P qs p h.1 (ground arith)
]

module _ {B D : Type 0} (w : World B D) where
  -- A block of the wanted name that can be dug.
  abbrev pub Mineable : String → MineBlockPos → Type 0
  Mineable block_name =
      Block w (λ b. w.is_diggable_block b && str_eq (w.normalize_name (w.block_name b)) block_name)

  verify-Mineable :
      (block_name : String) (p : MineBlockPos) (target_name : String)
      → verify_target_is_readable w block_name p target_name ≡ true
      → Mineable block_name p
  unfolding verify_target_is_readable
  verify-Mineable block_name p target_name h = elim (Option-cases (w.read_block_at p)) [
    | inl k ↦ absurd (ground arith)
    | inr (b, k) ↦ (b, k, ground arith)
  ]

  abbrev pub Wanted : String → List MineRouteTarget → MineBlockPos → Type 0
  Wanted block_name targets p =
      Mineable block_name p × (has (map (λ (t : MineRouteTarget). t.position) targets) p ≡ true)

  All-wider :
      (block_name : String) (t : MineRouteTarget) (ts : List MineRouteTarget)
      (ps : List MineBlockPos)
      → All (Wanted block_name ts) ps
      → All (Wanted block_name (t ∷ ts)) ps
  unfolding has
  All-wider block_name t ts [] h = tt
  All-wider block_name t ts (p ∷ ps) h =
      ((h.0.0, ground (arith, h.0.1)), All-wider block_name t ts ps h.1)

  readable_targets-Wanted :
      (block_name : String) (ts : List MineRouteTarget)
      → All (Wanted block_name ts) (readable_targets w block_name ts)
  unfolding readable_targets has
  readable_targets-Wanted block_name [] = tt
  readable_targets-Wanted block_name (t ∷ ts) =
      let rest =
        All-wider block_name t ts (readable_targets w block_name ts)
          (readable_targets-Wanted block_name ts) in
      elim (Bool-cases (verify_target_is_readable w block_name t.position t.block_name)) [
        | inl e ↦ rw e (
          (
            verify-Mineable block_name t.position t.block_name e,
            ground (arith, same_pos_iff t.position t.position),
          ),
          rest,
        )
        | inr e ↦ rw e rest
      ]

  All-insert :
      (P : MineBlockPos → Type 0) (foot t : MineBlockPos) (us : List MineBlockPos)
      → P t
      → All P us
      → All P (insert_by_distance w foot t us)
  unfolding insert_by_distance
  All-insert P foot t [] p h = (p, tt)
  All-insert P foot t (u ∷ us) p h =
      elim (Bool-cases (w.less (w.distance foot u) (w.distance foot t))) [
        | inl e ↦ rw e (h.0, All-insert P foot t us p h.1)
        | inr e ↦ rw e (p, h)
      ]

  All-sort :
      (P : MineBlockPos → Type 0) (foot : MineBlockPos) (ts : List MineBlockPos)
      → All P ts
      → All P (sort_by_distance w foot ts)
  unfolding sort_by_distance
  All-sort P foot [] h = tt
  All-sort P foot (t ∷ ts) h = All-insert P foot t _ h.0 (All-sort P foot ts h.1)

  pub verified_targets-Wanted :
      (block_name : String) (foot : MineBlockPos) (ts : List MineRouteTarget)
      → All (Wanted block_name ts) (verified_targets w block_name foot ts)
  unfolding verified_targets
  verified_targets-Wanted block_name foot ts =
      All-sort _ foot _ (readable_targets-Wanted block_name ts)

  -- Within reach, and in sight of the eye.
  abbrev pub Visible : MineBlockPos → List MineBlockPos → MineBlockPos → Type 0
  Visible foot air t =
      (w.less w.max_reach (w.eye_distance foot t) ≡ false) × (ray_clear_to w foot t air ≡ true)

  abbrev BestIs : (MineBlockPos → Type 0) → Option (MineBlockPos × D) → Type 0
  BestIs Q none = Unit
  BestIs Q (some (p, d)) = Q p

  best-Q :
      (Q : MineBlockPos → Type 0) (best : Option (MineBlockPos × D)) {t : MineBlockPos}
      → BestIs Q best
      → elim best [ none ↦ none | some (p, d) ↦ some p ] ≡ some t
      → Q t
  best-Q Q none h e = cc
  best-Q Q (some (p, d)) h e = subst Q (cc) h

  best-if :
      (Q : MineBlockPos → Type 0) (c : Bool) (best : Option (MineBlockPos × D)) (u : MineBlockPos)
      (d : D)
      → (c ≡ true → Q u)
      → BestIs Q best
      → BestIs Q (if c then some (u, d) else best)
  best-if Q true best u d h b = h refl
  best-if Q false best u d h b = b

  find_reachable_from-Q :
      (Q : MineBlockPos → Type 0) (foot : MineBlockPos) (air ts : List MineBlockPos)
      (best : Option (MineBlockPos × D)) {t : MineBlockPos}
      → BestIs Q best
      → All (λ u. Visible foot air u → Q u) ts
      → find_reachable_from w best foot air ts ≡ some t
      → Q t
  unfolding find_reachable_from
  find_reachable_from-Q Q foot air [] best b h e = best-Q Q best b e
  find_reachable_from-Q Q foot air (u ∷ us) best {t} b h e =
      find_reachable_from-Q Q foot air us _ {t = t}
        (best-if Q _ best u _ (λ c. h.0 (ground arith, ground arith)) b) h.1 e

  All-seen :
      (foot : MineBlockPos) (air ps ts : List MineBlockPos)
      → ((q : MineBlockPos) → has ps q ≡ true → has ts q ≡ true)
      → All (λ u. Visible foot air u → (has ts u ≡ true) × Visible foot air u) ps
  unfolding has
  All-seen foot air [] ts g = tt
  All-seen foot air (p ∷ ps) ts g = (
    λ v. (g p (ground (arith, same_pos_iff p p)), v),
    All-seen foot air ps ts (λ q h. g q (ground arith)),
  )

  pub find_reachable_target-Visible :
      (foot : MineBlockPos) (air ts : List MineBlockPos) {t : MineBlockPos}
      → find_reachable_target w foot air ts ≡ some t
      → (has ts t ≡ true) × Visible foot air t
  unfolding find_reachable_target
  find_reachable_target-Visible foot air ts {t} e =
      let Q : MineBlockPos → Type 0 = λ u. (has ts u ≡ true) × Visible foot air u in
      find_reachable_from-Q Q foot air ts none {t = t} tt (All-seen foot air ts ts (λ q h. h)) e

find_target-has :
    (ts : List MineBlockPos) (p : MineBlockPos) {t : MineBlockPos}
    → find_target ts p ≡ some t
    → (has ts t ≡ true) × (t ≡ p)
unfolding find_target has
find_target-has [] p e = cc
find_target-has (u ∷ us) p {t} e = elim (Bool-cases (same_pos u p)) [
  | inl k ↦ (ground (arith, same_pos_iff u t, same_pos_iff u p), ground (arith, same_pos_iff u p))
  | inr k ↦ let (h, q) = find_target-has us p {t = t} (ground arith) in (ground arith, q)
]

find_dug_in-has :
    (ps ts : List MineBlockPos) {t : MineBlockPos}
    → find_dug_in ps ts ≡ some t
    → (has ts t ≡ true) × (has ps t ≡ true)
unfolding find_dug_in has
find_dug_in-has [] ts e = cc
find_dug_in-has (p ∷ ps) ts {t} e = elim (Option-cases (find_target ts p)) [
  | inl k ↦ let (h, q) = find_dug_in-has ps ts {t = t} (ground arith) in (h, ground arith)
  | inr (u, k) ↦
      let (h, q) = find_target-has ts p k in (ground arith, ground (arith, same_pos_iff p t))
]

pub find_dug_target-has :
    (action : MineRouteAction) (ts : List MineBlockPos) {t : MineBlockPos}
    → find_dug_target (some action) ts ≡ some t
    → (has ts t ≡ true) × (has (digs_of action) t ≡ true)
unfolding find_dug_target
find_dug_target-has action ts e = find_dug_in-has (digs_of action) ts e
