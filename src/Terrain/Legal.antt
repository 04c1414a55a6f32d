-- ===== src/Terrain/Legal.antt =====
-- What a legal route is, told apart from the search of
-- ts-core/src/runtime/transport/terrain/router.ts: a route changes the ground, and after each action
-- the bot stands on it.
pub mod Heights
pub mod Cells
pub mod Moves
pub mod Digs
pub mod Candidates
pub mod Nodes
pub mod Phases
pub mod Plans
pub mod Budget
pub mod Routes
pub mod Heuristic
use mc_servant.Base.{
  ℕ, ◌+◌, ◌*◌, ◌≡◌, Bool, true, false, Option, none, some, List, [], ◌∷◌, length, if◌then◌else◌,
}
use mc_servant.Mining.Position.{MineRouteDirection, ahead, up, down, same_pos, has}
use mc_servant.Terrain.Action.{
  TerrainBlockPos, TerrainRouteDirection, TerrainRouteAction, to_foot, dir, digs_of, place_at,
  places, drops, walk, drop1, jump_up, place_up1, dig_walk, dig_step_down, dig_step_up,
  dig_drop_self_placed,
}
use mc_servant.Terrain.World.{World}
use mc_servant.Terrain.Candidates.{turn_penalty}

-- A cell of the ground: what the world has there, or what the route has made of it.
pub data Cell (B : Type 0) : Type 0 where
  natural : Option B → Cell B
  dug placed : Cell B

-- What the actions of a route dig, place and drop, in total.
abbrev pub dig_total : List TerrainRouteAction → ℕ
dig_total [] = 0
dig_total (a ∷ as') = length (digs_of a) + dig_total as'

abbrev pub place_total : List TerrainRouteAction → ℕ
place_total [] = 0
place_total (a ∷ as') = places a + place_total as'

abbrev pub drop_total : List TerrainRouteAction → ℕ
drop_total [] = 0
drop_total (a ∷ as') = drops a + drop_total as'

-- Where an action leads from a foot.
abbrev pub destination : TerrainBlockPos → TerrainRouteAction → TerrainBlockPos
destination foot (walk p d) = ahead d foot
destination foot (drop1 p d) = down (ahead d foot)
destination foot (jump_up p d) = up (ahead d foot)
destination foot (place_up1 p d q s ds) = up foot
destination foot (dig_walk p d ds) = ahead d foot
destination foot (dig_step_down p d ds) = down (ahead d foot)
destination foot (dig_step_up p d ds) = up (ahead d foot)
destination foot (dig_drop_self_placed p d ds) = down foot

-- What an action costs after one in the direction `last`.
abbrev pub cost_of : Option TerrainRouteDirection → TerrainRouteAction → ℕ
cost_of last (walk p d) = 6 + turn_penalty last d
cost_of last (drop1 p d) = 7 + turn_penalty last d
cost_of last (jump_up p d) = 7 + turn_penalty last d
cost_of last (place_up1 p d q s ds) = 30 + 6 * length ds + turn_penalty last d
cost_of last (dig_walk p d ds) = 24 + 6 * length ds + turn_penalty last d
cost_of last (dig_step_down p d ds) = 31 + 6 * length ds + turn_penalty last d
cost_of last (dig_step_up p d ds) = 31 + 6 * length ds + turn_penalty last d
cost_of last (dig_drop_self_placed p d ds) = 13

abbrev pub cost_total : Option TerrainRouteDirection → List TerrainRouteAction → ℕ
cost_total last [] = 0
cost_total last (a ∷ as') = cost_of last a + cost_total (some (dir a)) as'

module _ {B D : Type 0} (w : World B D) where
  abbrev pub Ground : Type 0
  Ground = TerrainBlockPos → Cell B

  abbrev pub solid : Cell B → Bool
  solid (natural none) = false
  solid (natural (some b)) = w.is_support_block b
  solid dug = false
  solid placed = true

  abbrev pub clear : Cell B → Bool
  clear (natural none) = false
  clear (natural (some b)) = w.is_air_block b
  clear dug = true
  clear placed = false

  abbrev pub diggable : Cell B → Bool
  diggable (natural none) = false
  diggable (natural (some b)) = w.is_diggable_block b
  diggable dug = false
  diggable placed = false

  -- The world, before the route.
  abbrev pub first_ground : Ground
  first_ground p = natural (w.read_block_at p)

  abbrev pub places_here : TerrainRouteAction → TerrainBlockPos → Bool
  places_here a p = elim (place_at a) [ none ↦ false | some q ↦ same_pos q p ]

  -- The ground after an action: its digs, then the block that it places.
  abbrev pub after : Ground → TerrainRouteAction → Ground
  after g a p = if places_here a p then placed else if has (digs_of a) p then dug else g p

  -- The bot can be at a foot: a support below it, and room for its body.
  abbrev pub Standing : Ground → TerrainBlockPos → Type 0
  Standing g p = (solid (g (down p)) ≡ true) × (clear (g p) ≡ true) × (clear (g (up p)) ≡ true)

  -- What an action needs beyond its digs: a block is placed in the room of the foot, on a support;
  -- the bot lets itself down only by a block of its own.
  abbrev pub Needs : Ground → TerrainBlockPos → TerrainRouteAction → Type 0
  Needs g foot (place_up1 p d q s ds) =
      (q ≡ foot) × (s ≡ down foot) × (solid (g (down foot)) ≡ true) × (clear (g foot) ≡ true)
  Needs g foot (dig_drop_self_placed p d ds) =
      (ds ≡ down foot ∷ []) × (w.is_self_placed_terrain_block (down foot) ≡ true)
  Needs g foot _ = Unit

  pub record Step (g : Ground) (foot : TerrainBlockPos) (a : TerrainRouteAction) : Type 0 where
    pub leads : to_foot a ≡ destination foot a
    pub digs : (q : TerrainBlockPos) → has (digs_of a) q ≡ true → diggable (g q) ≡ true
    pub needs : Needs g foot a
    pub stands : Standing (after g a) (to_foot a)

  -- A route: one step after the other, each on the ground that the earlier ones have left.
  abbrev pub Legal : Ground → TerrainBlockPos → List TerrainRouteAction → Type 0
  Legal g foot [] = Unit
  Legal g foot (a ∷ as') = Step g foot a × Legal (after g a) (to_foot a) as'

abbrev pub foot_after : TerrainBlockPos → List TerrainRouteAction → TerrainBlockPos
foot_after foot [] = foot
foot_after foot (a ∷ as') = foot_after (to_foot a) as'
