-- ===== src/Conversation/InventoryDiff/Changes.antt =====
-- `renderInventoryDiff` of ts-core/src/conversation/inventory-diff-cache.ts lists the changes.
use Prim.Native.String.{String}
use text.Mathlib.Text.{◌==◌}
use text.Mathlib.TextEquality.{eq_iff}
use mc_servant.Base.{
  ℕ, ◌≡◌, ◌≢◌, ap, ◌||◌, ◌&&◌, false, Option, none, some, List, [], ◌∷◌, ◌++◌, arith, if◌then◌else◌,
}
use mc_servant.Base.Ints.{ℤ, difference, nonzero, nonzero-difference}
use mc_servant.Base.Maps.{keys, has, distinct, Distinct, get-keys, has-distinct, distinct-Distinct}
use mc_servant.Conversation.InventoryDiff.{
  Snapshot, ConversationInventoryDiffEntry, count_of, entries_of, render_inventory_diff,
}

-- The change of an item that a line shows: that of its first entry.
abbrev pub delta_of : List ConversationInventoryDiffEntry → String → Option ℤ
delta_of [] name = none
delta_of (e ∷ es) name = if e.item_name == name then some e.delta else delta_of es name

abbrev pub names_of : List ConversationInventoryDiffEntry → List String
names_of [] = []
names_of (e ∷ es) = e.item_name ∷ names_of es

-- A line for the way from counts `f` to counts `g`: no line where nothing has changed; otherwise one
-- entry for each item whose count has changed, with the difference, and no other.
abbrev pub Changes :
    (String → ℕ) → (String → ℕ) → Option (List ConversationInventoryDiffEntry) → Type 0
Changes f g none = (name : String) → f name ≡ g name
Changes f g (some es) =
    (es ≢ [])
    × Distinct (names_of es)
    × ((name : String)
        → delta_of es name ≡ (
            if nonzero (difference (g name) (f name))
            then some (difference (g name) (f name))
            else none))

has-append : (x : String) (xs ys : List String) → has x (xs ++ ys) ≡ (has x xs || has x ys)
unfolding has
has-append x [] ys = ground arith
has-append x (y ∷ xs) ys = ground (arith, has-append x xs ys)

has-names :
    (f g : Snapshot) (x : String) (names : List String)
    → has x names ≡ false
    → has x (names_of (entries_of f g names)) ≡ false
unfolding has entries_of
has-names f g x [] h = ground arith
has-names f g x (y ∷ ys) h = ground (arith, has-names f g x ys)

entries-Distinct :
    (f g : Snapshot) (names : List String)
    → Distinct names
    → Distinct (names_of (entries_of f g names))
unfolding entries_of
entries-Distinct f g [] h = tt
entries-Distinct f g (y ∷ ys) h =
    ground (arith, entries-Distinct f g ys h.1, has-names f g y ys h.0)

delta_of-entries :
    (f g : Snapshot) (names : List String) (x : String)
    → delta_of (entries_of f g names) x ≡ (
        if has x names && nonzero (difference (count_of g x) (count_of f x))
        then some (difference (count_of g x) (count_of f x))
        else none)
unfolding has entries_of
delta_of-entries f g [] x = ground arith
delta_of-entries f g (y ∷ ys) x = ground (
  arith,
  delta_of-entries f g ys x,
  eq_iff y x,
  ap (λ (z : String). difference (count_of g z) (count_of f z)),
)

unnamed :
    (f g : Snapshot) (x : String)
    → has x (distinct (keys f ++ keys g)) ≡ false
    → (count_of f x ≡ 0) × (count_of g x ≡ 0)
unfolding count_of
unnamed f g x h = ground (
  arith,
  has-distinct x (keys f ++ keys g),
  has-append x (keys f) (keys g),
  get-keys f x,
  get-keys g x,
)

delta_of-all :
    (f g : Snapshot) (x : String)
    → delta_of (entries_of f g (distinct (keys f ++ keys g))) x ≡ (
        if nonzero (difference (count_of g x) (count_of f x))
        then some (difference (count_of g x) (count_of f x))
        else none)
delta_of-all f g x = ground (
  arith,
  delta_of-entries f g (distinct (keys f ++ keys g)) x,
  unnamed f g x,
  nonzero-difference (count_of g x) (count_of f x),
)

listed :
    (f g : String → ℕ) (es : List ConversationInventoryDiffEntry)
    → Distinct (names_of es)
    → ((name : String)
        → delta_of es name ≡ (
            if nonzero (difference (g name) (f name))
            then some (difference (g name) (f name))
            else none))
    → Changes f g (elim es [ [] ↦ none | e ∷ rest ↦ some (e ∷ rest) ])
listed f g [] d h = λ name. ground (arith, h name, nonzero-difference (g name) (f name))
listed f g (e ∷ es) d h = (λ q. cc, d, h)

-- The line for a baseline and a snapshot is missing exactly when they have the same count of every
-- item; otherwise it has one entry for each item whose count differs, with the difference, and no
-- entry for another item.
pub render_inventory_diff-Changes :
    (baseline current : Snapshot)
    → Changes (count_of baseline) (count_of current) (render_inventory_diff baseline current)
unfolding render_inventory_diff
render_inventory_diff-Changes baseline current =
    let names = distinct (keys baseline ++ keys current) in
    listed (count_of baseline) (count_of current) (entries_of baseline current names)
      (entries-Distinct baseline current names (distinct-Distinct (keys baseline ++ keys current)))
      (delta_of-all baseline current)
