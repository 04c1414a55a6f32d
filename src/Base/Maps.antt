-- ===== src/Base/Maps.antt =====
-- A JavaScript `Map` with string keys: its entries in the order in which the keys were set first.
use Prim.Native.String.{String}
use text.Mathlib.Text.{◌==◌}
use text.Mathlib.TextEquality.{eq_iff}
use mathlib.Core.Path.{◌≡◌, refl}
use mathlib.Core.Bool.{Bool, false, ◌||◌}
use mathlib.Core.List.{List, [], ◌∷◌, ◌++◌}
use mathlib.Core.Option.{Option, none, some}
use native.Mathlib.Omega.{arith}
use mc_servant.Base.Tests.{if◌then◌else◌}

module _ {V : Type 0} where
  -- `map.get(key)`.
  unfoldable pub get : List (String × V) → String → Option V
  get [] k = none
  get ((j, v) ∷ m) k = if j == k then some v else get m k

  -- `map.set(key, value)`.
  unfoldable pub put : List (String × V) → String → V → List (String × V)
  put [] k v = (k, v) ∷ []
  put ((j, u) ∷ m) k v = if j == k then (j, v) ∷ m else (j, u) ∷ put m k v

  -- `map.keys()`.
  unfoldable pub keys : List (String × V) → List String
  keys [] = []
  keys ((j, v) ∷ m) = j ∷ keys m

  pub get-put :
      (m : List (String × V)) (k : String) (v : V) (j : String)
      → get (put m k v) j ≡ (if k == j then some v else get m j)
  unfolding get put
  get-put [] k v j = refl
  get-put ((i, u) ∷ m) k v j = ground (arith, get-put m k v j, eq_iff i k, eq_iff i j, eq_iff k j)

-- Whether a list has a string.
unfoldable pub has : String → List String → Bool
has x [] = false
has x (y ∷ ys) = y == x || has x ys

unfoldable pub without : String → List String → List String
without x [] = []
without x (y ∷ ys) = if y == x then without x ys else y ∷ without x ys

-- `[...new Set(xs)]`: each string where it stands first.
unfoldable pub distinct : List String → List String
distinct [] = []
distinct (x ∷ xs) = x ∷ without x (distinct xs)

abbrev pub Distinct : List String → Type 0
Distinct [] = Unit
Distinct (x ∷ xs) = (has x xs ≡ false) × Distinct xs

pub has-without :
    (x y : String) (ys : List String) → has x (without y ys) ≡ (if y == x then false else has x ys)
unfolding has without
has-without x y [] = ground arith
has-without x y (z ∷ zs) = ground (arith, has-without x y zs, eq_iff z x, eq_iff z y, eq_iff y x)

pub has-distinct : (x : String) (xs : List String) → has x (distinct xs) ≡ has x xs
unfolding has distinct
has-distinct x [] = refl
has-distinct x (y ∷ ys) = ground (arith, has-distinct x ys, has-without x y (distinct ys))

pub without-Distinct : (x : String) (xs : List String) → Distinct xs → Distinct (without x xs)
unfolding without
without-Distinct x [] h = tt
without-Distinct x (y ∷ ys) h = ground (arith, without-Distinct x ys h.1, has-without y x ys)

pub has-append : (x : String) (xs ys : List String) → has x (xs ++ ys) ≡ (has x xs || has x ys)
unfolding has
has-append x [] ys = refl
has-append x (y ∷ xs) ys = ground (arith, has-append x xs ys)

pub append-Distinct :
    (xs : List String) (x : String) → Distinct xs → has x xs ≡ false → Distinct (xs ++ x ∷ [])
unfolding has
append-Distinct [] x d h = (refl, tt)
append-Distinct (y ∷ xs) x d h =
    ground (arith, append-Distinct xs x d.1, has-append y xs (x ∷ []), eq_iff x y, eq_iff y x)

pub distinct-Distinct : (xs : List String) → Distinct (distinct xs)
unfolding distinct
distinct-Distinct [] = tt
distinct-Distinct (x ∷ xs) = (
  ground (arith, has-without x x (distinct xs), eq_iff x x),
  without-Distinct x (distinct xs) (distinct-Distinct xs),
)

pub get-keys :
    {V : Type 0} (m : List (String × V)) (k : String) → has k (keys m) ≡ false → get m k ≡ none
unfolding get keys has
get-keys [] k h = refl
get-keys ((j, v) ∷ m) k h = ground (arith, get-keys m k)
