-- ===== src/Conversation/InventoryDiff.antt =====
-- ts-core/src/conversation/inventory-diff-cache.ts: what a bot's prompt says of its inventory, against
-- the inventory that an earlier prompt has shown.
pub mod Counts
pub mod Changes
pub mod Advance
pub mod Histories
use Prim.Native.String.{String}
use mc_servant.Base.{
  ℕ, ◌+◌, Bool, true, false, Option, none, some, List, [], ◌∷◌, ◌++◌, if◌then◌else◌, get_elem?, set,
}
use mc_servant.Base.Ints.{ℤ, difference, nonzero}
use mc_servant.Base.Maps.{get, put, keys, distinct}

pub record InventoryItemSummary : Type 0 where
  pub slot : ℕ
  pub item_name : String
  pub count : ℕ

pub record InventorySummary : Type 0 where
  pub items : List InventoryItemSummary
  pub total_items : ℕ
  pub occupied_slots : ℕ
  pub free_slots : ℕ

pub record ConversationInventoryDiffEntry : Type 0 where
  pub item_name : String
  pub delta : ℤ

abbrev pub Snapshot : Type 0
Snapshot = List (String × ℕ)

-- `counts.get(itemName) ?? 0`.
unfoldable pub count_of : Snapshot → String → ℕ
count_of counts name = elim (get counts name) [ none ↦ 0 | some n ↦ n ]

-- The loop over the items.
unfoldable pub count_items : Snapshot → List InventoryItemSummary → Snapshot
count_items counts [] = counts
count_items counts (item ∷ items) =
    count_items (put counts item.item_name (count_of counts item.item_name + item.count)) items

unfoldable pub create_inventory_count_map : InventorySummary → Snapshot
create_inventory_count_map inventory = count_items [] inventory.items

-- The entries of the names, less those without a change: `map`, then `filter`.
unfoldable pub entries_of : Snapshot → Snapshot → List String → List ConversationInventoryDiffEntry
entries_of baseline current [] = []
entries_of baseline current (name ∷ names) =
    let delta = difference (count_of current name) (count_of baseline name) in
    let rest = entries_of baseline current names in
    if nonzero delta then record { item_name = name; delta = delta } ∷ rest else rest

-- The line is the list of its entries instead of their text; `none` is `undefined`.
unfoldable pub render_inventory_diff :
    Snapshot → Snapshot → Option (List ConversationInventoryDiffEntry)
render_inventory_diff baseline current =
    let entries = entries_of baseline current (distinct (keys baseline ++ keys current)) in
    elim entries [ [] ↦ none | e ∷ es ↦ some (e ∷ es) ]

pub record Baseline : Type 0 where
  pub snapshot : Snapshot
  pub captured_at : ℕ

-- What a call of `preparePromptContext` returns, with the variables that `advanceBaseline` closes
-- over.
pub record PromptContext : Type 0 where
  pub bot_id : String
  pub inventory_change_context : Option (List ConversationInventoryDiffEntry)
  pub current_snapshot : Snapshot
  pub advanced : Bool

abbrev pub Baselines : Type 0
Baselines = List (String × Baseline)

unfoldable pub prepare_prompt_context : Baselines → String → InventorySummary → PromptContext
prepare_prompt_context baselines bot_id inventory =
    let current = create_inventory_count_map inventory in
    record {
      bot_id = bot_id;
      inventory_change_context = elim (get baselines bot_id) [
        | none ↦ none
        | some baseline ↦ render_inventory_diff baseline.snapshot current
      ];
      current_snapshot = current;
      advanced = false;
    }

-- `advanceBaseline`, at the time `now`.
unfoldable pub advance_baseline : ℕ → Baselines → PromptContext → Baselines × PromptContext
advance_baseline now baselines context = if context.advanced then (baselines, context) else (
  put baselines context.bot_id (record { snapshot = context.current_snapshot; captured_at = now }),
  record context { advanced = true },
)

-- The cache, and the contexts it has returned.
pub record Cache : Type 0 where
  pub baselines : Baselines
  pub contexts : List PromptContext

abbrev pub create_conversation_inventory_diff_cache : Cache
create_conversation_inventory_diff_cache = record { baselines = []; contexts = [] }

-- A call of the cache, or one of `advanceBaseline` of the context at an index.
pub data Event : Type 0 where
  prepare : String → InventorySummary → Event
  advance : ℕ → ℕ → Event

unfoldable pub step : Cache → Event → Cache
step c (prepare bot_id inventory) = record c {
  contexts = c.contexts ++ prepare_prompt_context c.baselines bot_id inventory ∷ [];
}
step c (advance now index) = elim (get_elem? c.contexts index) [
  | none ↦ c
  | some context ↦
      let (baselines, after) = advance_baseline now c.baselines context in
      record { baselines = baselines; contexts = set c.contexts index after }
]

unfoldable pub run : Cache → List Event → Cache
run c [] = c
run c (e ∷ es) = run (step c e) es
