-- ===== src/Conversation/InventoryDiff/Counts.antt =====
-- The snapshot of ts-core/src/conversation/inventory-diff-cache.ts has the sum of each item's stacks.
use Prim.Native.String.{String}
use text.Mathlib.Text.{◌==◌}
use text.Mathlib.TextEquality.{eq_iff}
use mc_servant.Base.{ℕ, ◌+◌, ◌≡◌, ap, List, [], ◌∷◌, arith, if◌then◌else◌, weight}
use mc_servant.Base.Maps.{get, put, get-put}
use mc_servant.Conversation.InventoryDiff.{
  InventoryItemSummary, InventorySummary, Snapshot, count_of, count_items,
  create_inventory_count_map,
}

-- What an inventory has of an item: the sum over the stacks of that name.
abbrev pub total : InventorySummary → String → ℕ
total inventory name =
    weight (λ (item : InventoryItemSummary). if item.item_name == name then item.count else 0)
      inventory.items

count_of-put :
    (counts : Snapshot) (k : String) (n : ℕ) (name : String)
    → count_of (put counts k n) name ≡ (if k == name then n else count_of counts name)
unfolding count_of
count_of-put counts k n name = ground (arith, get-put counts k n name)

count_items-sum :
    (counts : Snapshot) (items : List InventoryItemSummary) (name : String)
    → count_of (count_items counts items) name
      ≡ count_of counts name
        + weight
            (λ (item : InventoryItemSummary). if item.item_name == name then item.count else 0)
            items
unfolding count_items
count_items-sum counts [] name = omega arith
count_items-sum counts (item ∷ items) name =
    let n = count_of counts item.item_name + item.count in
    ground (
      arith,
      count_items-sum (put counts item.item_name n) items name,
      count_of-put counts item.item_name n name,
      eq_iff item.item_name name,
      ap (count_of counts),
    )

-- The count map of an inventory has of every item the sum of its stacks.
pub create_inventory_count_map-total :
    (inventory : InventorySummary) (name : String)
    → count_of (create_inventory_count_map inventory) name ≡ total inventory name
unfolding create_inventory_count_map count_of get
create_inventory_count_map-total inventory name =
    omega (arith, count_items-sum [] inventory.items name)
