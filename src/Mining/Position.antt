-- ===== src/Mining/Position.antt =====
-- ts-core/src/runtime/transport/mining/planner.ts: positions of blocks, directions, and the sets
-- of positions that the planner keeps.
pub use mc_servant.Base.Ints.{ℤ, pos, negsuc}
use mc_servant.Base.{
  ℕ, zero, suc, ◌+◌, ◌-◌, ◌≡◌, refl, ◌↔◌, Bool, true, false, ◌&&◌, ◌||◌, List, [], ◌∷◌, ◌++◌, arith,
  if◌then◌else◌, ◌==◌, leb,
}

unfoldable pub suc_int : ℤ → ℤ
suc_int (pos n) = pos (suc n)
suc_int (negsuc zero) = pos 0
suc_int (negsuc (suc n)) = negsuc n

unfoldable pub pred_int : ℤ → ℤ
pred_int (pos zero) = negsuc 0
pred_int (pos (suc n)) = pos n
pred_int (negsuc n) = negsuc (suc n)

unfoldable pub same_int : ℤ → ℤ → Bool
same_int (pos m) (pos n) = m == n
same_int (negsuc m) (negsuc n) = m == n
same_int _ _ = false

unfoldable pub leb_int : ℤ → ℤ → Bool
leb_int (pos m) (pos n) = leb m n
leb_int (pos m) (negsuc n) = false
leb_int (negsuc m) (pos n) = true
leb_int (negsuc m) (negsuc n) = leb n m

-- `Math.max(0, i - j)`.
unfoldable pub monus_int : ℤ → ℤ → ℕ
monus_int (pos m) (pos n) = m - n
monus_int (pos m) (negsuc n) = m + suc n
monus_int (negsuc m) (pos n) = 0
monus_int (negsuc m) (negsuc n) = n - m

pub record MineBlockPos : Type 0 where
  pub x : ℤ
  pub y : ℤ
  pub z : ℤ

pub data MineRouteDirection : Type 0 where
  north east south west : MineRouteDirection

abbrev pub directions : List MineRouteDirection
directions = north ∷ east ∷ south ∷ west ∷ []

abbrev pub up : MineBlockPos → MineBlockPos
up p = record p { y = suc_int p.y }

abbrev pub down : MineBlockPos → MineBlockPos
down p = record p { y = pred_int p.y }

-- One block in a direction: `DIR_VEC`.
abbrev pub ahead : MineRouteDirection → MineBlockPos → MineBlockPos
ahead north p = record p { z = pred_int p.z }
ahead east p = record p { x = suc_int p.x }
ahead south p = record p { z = suc_int p.z }
ahead west p = record p { x = pred_int p.x }

unfoldable pub same_pos : MineBlockPos → MineBlockPos → Bool
unfolding same_int
same_pos p q = same_int p.x q.x && same_int p.y q.y && same_int p.z q.z

unfoldable pub is_opposite_direction : MineRouteDirection → MineRouteDirection → Bool
is_opposite_direction north south = true
is_opposite_direction south north = true
is_opposite_direction east west = true
is_opposite_direction west east = true
is_opposite_direction _ _ = false

unfoldable pub same_direction : MineRouteDirection → MineRouteDirection → Bool
same_direction north north = true
same_direction east east = true
same_direction south south = true
same_direction west west = true
same_direction _ _ = false

same_int_iff : (i j : ℤ) → (same_int i j ≡ true) ↔ (i ≡ j)
unfolding same_int
same_int_iff i j = ground arith

pub same_pos_iff : (p q : MineBlockPos) → (same_pos p q ≡ true) ↔ (p ≡ q)
unfolding same_pos
same_pos_iff p q = ground (arith, same_int_iff p.x q.x, same_int_iff p.y q.y, same_int_iff p.z q.z)

-- A `Set` of position keys, in the order in which they were added.
unfoldable pub has : List MineBlockPos → MineBlockPos → Bool
has [] p = false
has (q ∷ qs) p = same_pos q p || has qs p

unfoldable pub add : List MineBlockPos → MineBlockPos → List MineBlockPos
add qs p = if has qs p then qs else qs ++ p ∷ []

unfoldable pub add_all : List MineBlockPos → List MineBlockPos → List MineBlockPos
add_all qs [] = qs
add_all qs (p ∷ ps) = add_all (add qs p) ps

has-append :
    (qs rs : List MineBlockPos) (p : MineBlockPos) → has (qs ++ rs) p ≡ (has qs p || has rs p)
unfolding has
has-append [] rs p = refl
has-append (q ∷ qs) rs p = ground (arith, has-append qs rs p)

-- An added position is in the set, and nothing else is new.
pub has-add :
    (qs : List MineBlockPos) (p q : MineBlockPos) → has (add qs p) q ≡ (has qs q || same_pos p q)
unfolding add has
has-add qs p q = ground (arith, has-append qs (p ∷ []) q, has_one, same_pos_iff p q)
  where
    has_one : has (p ∷ []) q ≡ same_pos p q
    has_one = ground arith
