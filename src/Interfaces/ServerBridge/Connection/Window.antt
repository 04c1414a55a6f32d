-- ===== src/Interfaces/ServerBridge/Connection/Window.antt =====
-- The window of message ids of ts-core/src/interfaces/server-bridge/route.ts: a set and a queue stand
-- for the ids that were accepted last.
use Prim.Native.String.{String}
use text.Mathlib.TextEquality.{eq_iff}
use mc_servant.Base.{
  ℕ, suc, ◌-◌, ◌≤◌, ◌≡◌, ◌⊎◌, inl, inr, ◌<◌, sym, Bool-cases, ap, ◌∙◌, true, false, List, [], ◌∷◌,
  ◌++◌, length, leb, drop, drop-append, drop-suc, length-append, length-drop, arith,
}
use mc_servant.Base.Maps.{has, without, has-without, has-append, append-Distinct, Distinct}
use mc_servant.Interfaces.ServerBridge.Connection.{
  message_id_dedup_window_size, forget_oldest, remember_message_id,
}

-- The last ids, as many as the window holds.
abbrev pub recent : List String → List String
recent ids = drop (length ids - message_id_dedup_window_size) ids

-- What the set and the queue are after the ids were accepted in this order.
pub record Remembers (ids seen order : List String) : Type 0 where
  pub queued : order ≡ recent ids
  pub distinct : Distinct order
  pub same : (x : String) → has x seen ≡ has x order

-- Of one id more than the window holds, the window's ids are the tail.
recent-tail :
    (ids order : List String) (x : String)
    → x ∷ order ≡ drop (length ids - suc message_id_dedup_window_size) ids
    → ((length (x ∷ order) ≤ message_id_dedup_window_size) × (x ∷ order ≡ recent ids))
      ⊎ ((message_id_dedup_window_size < length (x ∷ order)) × (order ≡ recent ids))
recent-tail ids order x q =
    let n = length ids - suc message_id_dedup_window_size in
    let size : length (x ∷ order) ≡ length ids - n = ap length q ∙ length-drop n ids in
    elim (Bool-cases (leb (length ids) message_id_dedup_window_size)) [
      | inl le ↦
          let same : n ≡ length ids - message_id_dedup_window_size = ground arith in
          inl (ground arith, q ∙ ap (λ (k : ℕ). drop k ids) same)
      | inr gt ↦
          let next : suc n ≡ length ids - message_id_dedup_window_size = ground arith in
          inr (ground arith, sym (drop-suc n ids x order (sym q)) ∙ ap (λ (k : ℕ). drop k ids) next)
    ]

without_oldest :
    (seen order : List String) (x : String)
    → has x order ≡ false
    → ((y : String) → has y seen ≡ has y (x ∷ order))
    → (y : String) → has y (without x seen) ≡ has y order
unfolding has
without_oldest seen order x d e y = ground (arith, has-without y x seen, e y, d, eq_iff x y)

forget_oldest-Remembers :
    (ids seen order : List String)
    → order ≡ drop (length ids - suc message_id_dedup_window_size) ids
    → Distinct order
    → ((x : String) → has x seen ≡ has x order)
    → let (s, o) = forget_oldest seen order in Remembers ids s o
unfolding forget_oldest
forget_oldest-Remembers ids seen [] q d e =
    let n = length ids - suc message_id_dedup_window_size in
    let size : 0 ≡ length ids - n = ap length q ∙ length-drop n ids in
    let same : n ≡ length ids - message_id_dedup_window_size = omega arith in
    record { queued = q ∙ ap (λ (k : ℕ). drop k ids) same; distinct = tt; same = e }
forget_oldest-Remembers ids seen (x ∷ order) q d e = elim (recent-tail ids order x q) [
  | inl (le, h) ↦
      let fits : leb (length (x ∷ order)) message_id_dedup_window_size ≡ true = ground arith in
      rw fits (record { queued = h; distinct = d; same = e })
  | inr (gt, h) ↦
      let full : leb (length (x ∷ order)) message_id_dedup_window_size ≡ false = ground arith in
      rw full (record { queued = h; distinct = d.1; same = without_oldest seen order x d.0 e })
]

recent-append :
    (ids : List String) (id : String)
    → recent ids ++ id ∷ []
      ≡ drop (length (ids ++ id ∷ []) - suc message_id_dedup_window_size) (ids ++ id ∷ [])
recent-append ids id =
    let n = length ids - message_id_dedup_window_size in
    let m = length (ids ++ id ∷ []) - suc message_id_dedup_window_size in
    let same : n ≡ m = omega (arith, length-append ids (id ∷ [])) in
    sym (drop-append n ids (id ∷ []) (omega arith)) ∙ ap (λ (k : ℕ). drop k (ids ++ id ∷ [])) same

pub remember_message_id-Remembers :
    (ids seen order : List String) (id : String)
    → Remembers ids seen order
    → has id seen ≡ false
    → let (s, o) = remember_message_id seen order id in Remembers (ids ++ id ∷ []) s o
unfolding remember_message_id
remember_message_id-Remembers ids seen order id r h =
    let fresh : has id order ≡ false = sym (r.same id) ∙ h in
    let same : (x : String) → has x (seen ++ id ∷ []) ≡ has x (order ++ id ∷ []) =
      λ x. cc (has-append x seen (id ∷ []), has-append x order (id ∷ []), r.same x) in
    rw h (
      forget_oldest-Remembers (ids ++ id ∷ []) (seen ++ id ∷ []) (order ++ id ∷ [])
        (ap (λ (xs : List String). xs ++ id ∷ []) r.queued ∙ recent-append ids id)
        (append-Distinct order id r.distinct fresh) same)
