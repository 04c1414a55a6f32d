-- ===== src/Runtime/Actor/Owners.antt =====
-- The calls in flight of ts-core/src/runtime/actor.ts, and the variable that each kind must hold.
use mc_servant.Base.{
  ℕ, zero, suc, ◌≡◌, refl, ap, ◌∙◌, Option, none, some, List, [], ◌∷◌, ◌++◌, get_elem?, is_none,
  if◌then◌else◌,
}
use mc_servant.Runtime.Actor.State.{Thread, writing, settled, running, remove_at}

-- The execution that a call runs, and the chat write that it waits for.
abbrev pub code_owner : Thread → Option ℕ
code_owner (running x message_id) = some x
code_owner _ = none

abbrev pub chat_owner : Thread → Option ℕ
chat_owner (writing promise w) = some promise
chat_owner (settled promise w ok) = some promise
chat_owner _ = none

-- A call with an owner takes the variable `o` from the calls behind it.
abbrev pub Slot : Option ℕ → Option ℕ → (Option ℕ → Type 0) → Type 0
Slot none o rest = rest o
Slot (some x) o rest = (o ≡ some x) × rest none

-- Of the calls, exactly the one with the identity in the variable `o` has an owner; if `o` is
-- `none`, no call has.
abbrev pub Owns : (Thread → Option ℕ) → List Thread → Option ℕ → Type 0
Owns f [] o = o ≡ none
Owns f (t ∷ ts) o = Slot (f t) o (Owns f ts)

module _ (P Q : Option ℕ → Type 0) where
  Slot-map : (q o : Option ℕ) → ((o' : Option ℕ) → P o' → Q o') → Slot q o P → Slot q o Q
  Slot-map none o g h = g o h
  Slot-map (some x) o g h = (h.0, g none h.1)

  Slot-fill : (q o : Option ℕ) → (P none → Q o) → Slot q none P → Slot q o Q
  Slot-fill none o g h = g h
  Slot-fill (some x) o g h = absurd (not_some (h.0))
    where
      not_some : ¬ (none ≡ some x)
      not_some e = cc

  Slot-take :
      (q o : Option ℕ) (x : ℕ)
      → ((o' : Option ℕ) → P o' → (o' ≡ some x) × Q none)
      → Slot q o P
      → (o ≡ some x) × Slot q none Q
  Slot-take none o x g h = g o h
  Slot-take (some y) o x g h = absurd (not_some (g none h.1).0)
    where
      not_some : ¬ (none ≡ some x)
      not_some e = cc

Slot-none : (q o : Option ℕ) (P : Option ℕ → Type 0) → q ≡ none → Slot q o P → P o
Slot-none none o P e h = h
Slot-none (some x) o P e h = cc

Slot-some :
    (q o : Option ℕ) (P : Option ℕ → Type 0) {x : ℕ}
    → q ≡ some x
    → Slot q o P
    → (o ≡ some x) × P none
Slot-some none o P e h = cc
Slot-some (some y) o P e h = (h.0 ∙ e, h.1)

module _ (f : Thread → Option ℕ) where
  -- A call without an owner may come and go.
  pub Owns-append-none :
      (ts : List Thread) (o : Option ℕ) (t : Thread)
      → f t ≡ none
      → Owns f ts o
      → Owns f (ts ++ t ∷ []) o
  Owns-append-none [] o t e h = rw e h
  Owns-append-none (u ∷ ts) o t e h =
      Slot-map (Owns f ts) (Owns f (ts ++ t ∷ [])) (f u) o (λ o'. Owns-append-none ts o' t e) h

  pub Owns-remove_at-none :
      (ts : List Thread) (o : Option ℕ) (i : ℕ) {t : Thread}
      → get_elem? ts i ≡ some t
      → f t ≡ none
      → Owns f ts o
      → Owns f (remove_at ts i) o
  Owns-remove_at-none [] o i g e h = cc
  Owns-remove_at-none (u ∷ ts) o zero g e h = Slot-none (f u) o (Owns f ts) (cc) h
  Owns-remove_at-none (u ∷ ts) o (suc i) g e h =
      Slot-map (Owns f ts) (Owns f (remove_at ts i)) (f u) o (λ o'. Owns-remove_at-none ts o' i g e)
        h

  -- A call with an owner needs a free variable, and takes it.
  pub Owns-append-some :
      (ts : List Thread) (t : Thread) {x : ℕ}
      → f t ≡ some x
      → Owns f ts none
      → Owns f (ts ++ t ∷ []) (some x)
  Owns-append-some [] t e h = rw e (refl, refl)
  Owns-append-some (u ∷ ts) t {x} e h =
      Slot-fill (Owns f ts) (Owns f (ts ++ t ∷ [])) (f u) (some x) (Owns-append-some ts t e) h

  -- The variable holds the identity of each call that has an owner, and no other call has one.
  pub Owns-remove_at-some :
      (ts : List Thread) (o : Option ℕ) (i : ℕ) {t : Thread} {x : ℕ}
      → get_elem? ts i ≡ some t
      → f t ≡ some x
      → Owns f ts o
      → (o ≡ some x) × Owns f (remove_at ts i) none
  Owns-remove_at-some [] o i g e h = cc
  Owns-remove_at-some (u ∷ ts) o zero g e h = Slot-some (f u) o (Owns f ts) (cc) h
  Owns-remove_at-some (u ∷ ts) o (suc i) {t} {x} g e h =
      Slot-take (Owns f ts) (Owns f (remove_at ts i)) (f u) o x
        (λ o'. Owns-remove_at-some ts o' i g e) h

-- How many calls have an owner.
abbrev pub owners : (Thread → Option ℕ) → List Thread → ℕ
owners f [] = 0
owners f (t ∷ ts) = elim (f t) [ none ↦ owners f ts | some x ↦ suc (owners f ts) ]

-- So the variable tells whether there is such a call, and there is never a second.
pub owners-Owns :
    (f : Thread → Option ℕ) (ts : List Thread) (o : Option ℕ)
    → Owns f ts o
    → owners f ts ≡ (if is_none o then 0 else 1)
owners-Owns f [] o h = rw h
owners-Owns f (t ∷ ts) o h = go (f t) h (owners-Owns f ts)
  where
    go :
        (q : Option ℕ)
        → Slot q o (Owns f ts)
        → ((o' : Option ℕ) → Owns f ts o' → owners f ts ≡ (if is_none o' then 0 else 1))
        → (elim q [ none ↦ owners f ts | some x ↦ suc (owners f ts) ])
          ≡ (if is_none o then 0 else 1)
    go none h k = k o h
    go (some x) h k = rw (h.0) (ap suc (k none h.1))
