-- ===== src/Terrain/Legal/Heights.antt =====
-- Positions one above the other, and beside one another, for the routes of
-- ts-core/src/runtime/transport/terrain/router.ts.
use mc_servant.Base.{ℕ, suc, ◌+◌, ◌≡◌, ◌≢◌, ap, false, arith}
use mc_servant.Mining.Position.{
  ℤ, pos, negsuc, suc_int, pred_int, MineBlockPos, MineRouteDirection, north, east, south, west,
  ahead, up, down, same_pos, same_pos_iff,
}

abbrev pos_part : ℤ → ℕ
pos_part (pos n) = n
pos_part (negsuc n) = 0

abbrev neg_part : ℤ → ℕ
neg_part (pos n) = 0
neg_part (negsuc n) = suc n

suc_parts : (i : ℤ) → pos_part (suc_int i) + neg_part i ≡ suc (pos_part i + neg_part (suc_int i))
unfolding suc_int
suc_parts i = ground arith

pred_parts : (i : ℤ) → suc (pos_part (pred_int i) + neg_part i) ≡ pos_part i + neg_part (pred_int i)
unfolding pred_int
pred_parts i = ground arith

suc-pred_int : (i : ℤ) → suc_int (pred_int i) ≡ i
unfolding suc_int pred_int
suc-pred_int i = ground arith

pred-suc_int : (i : ℤ) → pred_int (suc_int i) ≡ i
unfolding suc_int pred_int
pred-suc_int i = ground arith

pub up-down : (p : MineBlockPos) → up (down p) ≡ p
up-down p = ap (λ (i : ℤ). record p { y = i }) (suc-pred_int p.y)

pub down-up : (p : MineBlockPos) → down (up p) ≡ p
down-up p = ap (λ (i : ℤ). record p { y = i }) (pred-suc_int p.y)

same_pos-false : (p q : MineBlockPos) → p ≢ q → same_pos p q ≡ false
same_pos-false p q n = ground (arith, same_pos_iff p q, n)

-- One, two and three below.
pub below1 : (p : MineBlockPos) → same_pos p (down p) ≡ false
below1 p = same_pos-false p (down p) (λ e. omega (
  arith,
  ap (λ (q : MineBlockPos). pos_part q.y) e,
  ap (λ (q : MineBlockPos). neg_part q.y) e,
  pred_parts p.y,
))

pub below2 : (p : MineBlockPos) → same_pos (up p) (down p) ≡ false
below2 p = same_pos-false (up p) (down p) (λ e. omega (
  arith,
  ap (λ (q : MineBlockPos). pos_part q.y) e,
  ap (λ (q : MineBlockPos). neg_part q.y) e,
  suc_parts p.y,
  pred_parts p.y,
))

pub below3 : (p : MineBlockPos) → same_pos (up (up p)) (down p) ≡ false
below3 p = same_pos-false (up (up p)) (down p) (λ e. omega (
  arith,
  ap (λ (q : MineBlockPos). pos_part q.y) e,
  ap (λ (q : MineBlockPos). neg_part q.y) e,
  suc_parts p.y,
  suc_parts (suc_int p.y),
  pred_parts p.y,
))

-- One and two above.
pub above1 : (p : MineBlockPos) → same_pos p (up p) ≡ false
above1 p = same_pos-false p (up p) (λ e. omega (
  arith,
  ap (λ (q : MineBlockPos). pos_part q.y) e,
  ap (λ (q : MineBlockPos). neg_part q.y) e,
  suc_parts p.y,
))

pub above2 : (p : MineBlockPos) → same_pos p (up (up p)) ≡ false
above2 p = same_pos-false p (up (up p)) (λ e. omega (
  arith,
  ap (λ (q : MineBlockPos). pos_part q.y) e,
  ap (λ (q : MineBlockPos). neg_part q.y) e,
  suc_parts p.y,
  suc_parts (suc_int p.y),
))

moved : (i : ℤ) → (suc_int i ≢ i) × (pred_int i ≢ i)
moved i = (
  λ e. omega (arith, ap pos_part e, ap neg_part e, suc_parts i),
  λ e. omega (arith, ap pos_part e, ap neg_part e, pred_parts i),
)

-- A position in a column is none of the column ahead.
pub beside :
    (d : MineRouteDirection) (p q r : MineBlockPos)
    → q.x ≡ p.x
    → q.z ≡ p.z
    → r.x ≡ (ahead d p).x
    → r.z ≡ (ahead d p).z
    → same_pos q r ≡ false
beside d p q r h k l m = same_pos-false q r (go d l m)
  where
    go : (d : MineRouteDirection) → r.x ≡ (ahead d p).x → r.z ≡ (ahead d p).z → q ≢ r
    go north l m e = (moved p.z).1 (ground (arith, ap (λ (t : MineBlockPos). t.z) e))
    go south l m e = (moved p.z).0 (ground (arith, ap (λ (t : MineBlockPos). t.z) e))
    go east l m e = (moved p.x).0 (ground (arith, ap (λ (t : MineBlockPos). t.x) e))
    go west l m e = (moved p.x).1 (ground (arith, ap (λ (t : MineBlockPos). t.x) e))
