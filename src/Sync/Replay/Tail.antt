-- ===== src/Sync/Replay/Tail.antt =====
-- Which tail events a full resync replays: `events_after_checkpoints` of purr-sync/src/replay.rs.
use clipkitty.Base.{
  ℕ, suc, ◌+◌, ltb_ℤ, Bool, not, ◌&&◌, ◌||◌, String, Option, none, some, List, [], ◌∷◌, ◌++◌,
  str_eq, drop, if◌then◌else◌,
}
use clipkitty.Base.Text.{str_leb}
use clipkitty.Base.Table.{order_by}
use clipkitty.Sync.Event.{ItemEvent, ItemSnapshot}

-- The last event that a checkpoint covers, by item: `collect` into a map keeps the later entry.
unfoldable pub watermark : List ItemSnapshot → String → Option String
watermark [] item_id = none
watermark (s ∷ rest) item_id = elim (watermark rest item_id) [
  | some event_id ↦ some event_id
  | none ↦ if str_eq s.item_id item_id then s.covers_through_event else none
]

-- `events_by_item.entry(item_id).or_default().push(event)`: the items ascend.
unfoldable pub push_event :
    ItemEvent → List (String × List ItemEvent) → List (String × List ItemEvent)
push_event e [] = (e.item_id, e ∷ []) ∷ []
push_event e ((k, es) ∷ groups) =
    if str_eq k e.item_id
    then (k, es ++ e ∷ []) ∷ groups
    else if str_leb e.item_id k
    then (e.item_id, e ∷ []) ∷ (k, es) ∷ groups
    else (k, es) ∷ push_event e groups

unfoldable pub group_by_item :
    List (String × List ItemEvent) → List ItemEvent → List (String × List ItemEvent)
unfolding push_event
group_by_item groups [] = groups
group_by_item groups (e ∷ es) = group_by_item (push_event e groups) es

-- `recorded_at`, then `event_id`.
abbrev pub event_order : ItemEvent → ItemEvent → Bool
event_order a b =
    ltb_ℤ a.recorded_at b.recorded_at
    || (not (ltb_ℤ b.recorded_at a.recorded_at) && str_leb a.event_id b.event_id)

unfoldable pub position : String → List ItemEvent → Option ℕ
position event_id [] = none
position event_id (e ∷ es) =
    let rest = position event_id es in
    if str_eq e.event_id event_id then some 0 else elim rest [ none ↦ none | some i ↦ some (suc i) ]

abbrev pub position_of : Option String → List ItemEvent → Option ℕ
position_of none es = none
position_of (some event_id) es = position event_id es

-- `skip(watermark_index + 1)`, and how many events it skips.
unfoldable pub skip_through : Option ℕ → List ItemEvent → List ItemEvent × ℕ
skip_through none es = (es, 0)
skip_through (some i) es = (drop (i + 1) es, i + 1)

-- The events of one item behind its watermark, and how many it covers.
unfoldable pub after_watermark : Option String → List ItemEvent → List ItemEvent × ℕ
unfolding position skip_through
after_watermark mark es = skip_through (position_of mark es) es

unfoldable pub filter_groups :
    List ItemSnapshot → List (String × List ItemEvent) → List ItemEvent × ℕ
unfolding after_watermark watermark
filter_groups checkpoints [] = ([], 0)
filter_groups checkpoints ((item_id, es) ∷ groups) =
    let (kept, covered) =
      after_watermark (watermark checkpoints item_id) (order_by event_order es) in
    let (rest, more) = filter_groups checkpoints groups in (kept ++ rest, covered + more)

unfoldable pub events_after_checkpoints : List ItemSnapshot → List ItemEvent → List ItemEvent × ℕ
unfolding filter_groups group_by_item
events_after_checkpoints checkpoints tail_events =
    filter_groups checkpoints (group_by_item [] tail_events)
