-- ===== src/Tests/ConversationRuns.antt =====
-- ts-core/src/conversation/inventory-diff-cache.ts on small inventories.
use Prim.Native.String.{String}
use mc_servant.Base.{◌≡◌, ◌≢◌, refl, some, [], ◌∷◌}
use mc_servant.Base.Ints.{pos, negsuc}
use mc_servant.Base.Ints
use mc_servant.Base.Maps.{get}
use mc_servant.Base.Maps
use mc_servant.Conversation.InventoryDiff.{
  InventorySummary, Cache, prepare, advance, step, run, count_of, create_inventory_count_map,
  render_inventory_diff, prepare_prompt_context, create_conversation_inventory_diff_cache,
}
use mc_servant.Conversation.InventoryDiff
use mc_servant.Conversation.InventoryDiff.Counts.{total}
use mc_servant.Conversation.InventoryDiff.Changes.{Changes, render_inventory_diff-Changes}
use mc_servant.Conversation.InventoryDiff.Advance.{advance-prepare}

abbrev morning : InventorySummary
morning = record {
  items =
      record { slot = 36; item_name = "dirt"; count = 3 }
      ∷ record { slot = 37; item_name = "torch"; count = 2 }
      ∷ record { slot = 38; item_name = "dirt"; count = 4 }
      ∷ [];
  total_items = 9;
  occupied_slots = 3;
  free_slots = 33;
}

abbrev evening : InventorySummary
evening = record {
  items =
      record { slot = 36; item_name = "dirt"; count = 7 }
      ∷ record { slot = 37; item_name = "coal"; count = 5 }
      ∷ [];
  total_items = 12;
  occupied_slots = 2;
  free_slots = 34;
}

rendered :
    render_inventory_diff (create_inventory_count_map morning) (create_inventory_count_map evening)
    ≡ some (
        record { item_name = "torch"; delta = negsuc 1 }
        ∷ record { item_name = "coal"; delta = pos 5 }
        ∷ [])
unfolding render_inventory_diff InventoryDiff.entries_of Maps.distinct Maps.keys
    create_inventory_count_map InventoryDiff.count_items Maps.put Ints.nonzero Ints.difference
    count_of get Maps.without
rendered = refl

render_inventory_diff-Changes_example :
    Changes
      (count_of (("dirt", 7) ∷ []))
      (count_of (("coal", 5) ∷ []))
      (render_inventory_diff (("dirt", 7) ∷ []) (("coal", 5) ∷ []))
render_inventory_diff-Changes_example =
    render_inventory_diff-Changes (("dirt", 7) ∷ []) (("coal", 5) ∷ [])

abbrev prepared : Cache
prepared = record { baselines = []; contexts = prepare_prompt_context [] "bot" morning ∷ [] }

advance-prepare_example :
    Changes
      (total morning)
      (total evening)
      (prepare_prompt_context
        (step prepared (advance 1 0)).baselines
        "bot"
        evening).inventory_change_context
    × ((other : String)
        → other ≢ "bot"
        → prepare_prompt_context (step prepared (advance 1 0)).baselines other evening
          ≡ prepare_prompt_context [] other evening)
    × (step (step prepared (advance 1 0)) (advance 2 0) ≡ step prepared (advance 1 0))
advance-prepare_example = advance-prepare prepared 1 2 0 [] "bot" morning evening refl
