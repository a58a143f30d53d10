-- ===== src/Sync/Store/Queue.antt =====
-- The maintenance queue of the search index: table sync_index_queue of purr-sync/src/store.rs.
use clipkitty.Base.{
  take, ℕ, ℤ, ltb, ltb_ℤ, ◌==◌, Bool, true, not, ◌&&◌, ◌||◌, String, Option, none, some, List, [],
  ◌∷◌, str_eq, length, keep, is_empty, if◌then◌else◌,
}
use Prim.Native.String.{◌++◌ as str_append}
use clipkitty.Base.Text.{str_leb}
use clipkitty.Base.Table.{upsert, order_by, contains}
use clipkitty.Sync.Types.{IndexQueueOperation, IndexQueueEntry}
use clipkitty.Sync.Event.{Result, ok, err, inconsistent_data}
use clipkitty.Sync.Db.{QueueRow, FlagRow, Env}
use clipkitty.Sync.Monad.{Sync, pure, exec, read, write}

abbrev pub index_queue_reset_key : String
index_queue_reset_key = "__clipkitty_index_reset__"

unfoldable pub as_str : IndexQueueOperation → String
as_str IndexQueueOperation.reset = "reset"
as_str IndexQueueOperation.upsert = "upsert"
as_str IndexQueueOperation.delete = "delete"

unfoldable pub from_str : String → Option IndexQueueOperation
from_str raw =
    if str_eq raw "reset"
    then some IndexQueueOperation.reset
    else if str_eq raw "upsert"
    then some IndexQueueOperation.upsert
    else if str_eq raw "delete"
    then some IndexQueueOperation.delete
    else none

unfoldable pub queue_key_of : IndexQueueEntry → String
queue_key_of IndexQueueEntry.reset = index_queue_reset_key
queue_key_of (IndexQueueEntry.upsert item_id) = item_id
queue_key_of (IndexQueueEntry.delete item_id) = item_id

abbrev pub queue_key : QueueRow → String
queue_key r = r.queue_key

unfoldable pub reset_row : ℤ → QueueRow
unfolding as_str
reset_row now = record {
  queue_key = index_queue_reset_key;
  operation = as_str IndexQueueOperation.reset;
  item_id = none;
  updated_at = now;
}

unfoldable pub item_row : ℤ → String → IndexQueueOperation → QueueRow
unfolding as_str
item_row now item_id operation = record {
  queue_key = item_id;
  operation = as_str operation;
  item_id = some item_id;
  updated_at = now;
}

-- CASE operation WHEN 'reset' THEN 0 ELSE 1 END, updated_at ASC, queue_key ASC.
abbrev pub queue_order : QueueRow → QueueRow → Bool
queue_order r s =
    let rank = λ (q : QueueRow). if str_eq q.operation "reset" then 0 else 1 in
    ltb (rank r) (rank s)
    || (rank r == rank s
        && (ltb_ℤ r.updated_at s.updated_at
            || (not (ltb_ℤ s.updated_at r.updated_at) && str_leb r.queue_key s.queue_key)))

-- The arms of the match on a row's operation and item.
unfoldable pub decode_operation :
    Option IndexQueueOperation → String → String → Option String → Result IndexQueueEntry
decode_operation none raw key item =
    err (inconsistent_data (str_append "unknown index queue operation `" (str_append raw "`")))
decode_operation (some IndexQueueOperation.reset) raw key none =
    if str_eq key index_queue_reset_key
    then ok IndexQueueEntry.reset
    else err (inconsistent_data "index queue reset row has item data")
decode_operation (some IndexQueueOperation.reset) raw key (some item_id) =
    err (inconsistent_data "index queue reset row has item data")
decode_operation (some IndexQueueOperation.upsert) raw key (some item_id) =
    ok (IndexQueueEntry.upsert item_id)
decode_operation (some IndexQueueOperation.upsert) raw key none =
    err (inconsistent_data "index queue upsert row is missing item_id")
decode_operation (some IndexQueueOperation.delete) raw key (some item_id) =
    ok (IndexQueueEntry.delete item_id)
decode_operation (some IndexQueueOperation.delete) raw key none =
    err (inconsistent_data "index queue delete row is missing item_id")

unfoldable pub entry_of_queue_row : QueueRow → Result IndexQueueEntry
unfolding decode_operation from_str
entry_of_queue_row r = decode_operation (from_str r.operation) r.operation r.queue_key r.item_id

unfoldable pub collect_entries : List QueueRow → Result (List IndexQueueEntry)
unfolding entry_of_queue_row
collect_entries [] = ok []
collect_entries (r ∷ rs) =
    let rest = collect_entries rs in
    elim (entry_of_queue_row r) [
      | err e ↦ err e
      | ok entry ↦ elim rest [ ok entries ↦ ok (entry ∷ entries) | err e ↦ err e ]
    ]

unfoldable pub upsert_items : ℤ → List String → List QueueRow → List QueueRow
unfolding item_row
upsert_items now [] rows = rows
upsert_items now (item_id ∷ ids) rows =
    upsert_items now ids (upsert queue_key (item_row now item_id IndexQueueOperation.upsert) rows)

module _ {J : Type 0} (env : Env J) where
  unfoldable pub enqueue_index_operation : String → IndexQueueOperation → Sync J (Unit {0})
  unfolding item_row
  enqueue_index_operation item_id operation = write env (λ now db. record db {
    index_queue = upsert queue_key (item_row now item_id operation) db.index_queue;
  })

  unfoldable pub enqueue_index_reset : Sync J (Unit {0})
  unfolding reset_row
  enqueue_index_reset =
      write env
        (λ now db. record db { index_queue = upsert queue_key (reset_row now) db.index_queue })

  unfoldable pub enqueue_index_upsert : String → Sync J (Unit {0})
  unfolding enqueue_index_operation
  enqueue_index_upsert item_id = enqueue_index_operation item_id IndexQueueOperation.upsert

  unfoldable pub enqueue_index_delete : String → Sync J (Unit {0})
  unfolding enqueue_index_operation
  enqueue_index_delete item_id = enqueue_index_operation item_id IndexQueueOperation.delete

  -- One transaction: the queue becomes a reset and an upsert of every item, and the index is
  -- flagged dirty.
  unfoldable pub replace_index_queue_with_full_rebuild : List String → Sync J (Unit {0})
  unfolding reset_row upsert_items
  replace_index_queue_with_full_rebuild item_ids = write env (λ now db. record db {
    index_queue = upsert_items now item_ids (upsert queue_key (reset_row now) []);
    flags =
        upsert (λ (r : FlagRow). r.flag_name)
          (record { flag_name = "index_dirty"; flag_value = true; updated_at = now }) db.flags;
  })

  unfoldable pub fetch_index_queue : ℕ → Sync J (List IndexQueueEntry)
  unfolding collect_entries
  fetch_index_queue limit =
      if limit == 0
      then pure []
      else read env (λ db. collect_entries (take limit (order_by queue_order db.index_queue)))

  unfoldable pub remove_index_queue_entries : List String → Sync J ℕ
  remove_index_queue_entries keys =
      if is_empty keys
      then pure 0
      else exec env (λ now db. (
        ok (length (keep (λ r. contains keys r.queue_key) db.index_queue)),
        record db { index_queue = keep (λ r. not (contains keys r.queue_key)) db.index_queue },
      ))

  unfoldable pub count_index_queue_entries : Sync J ℕ
  count_index_queue_entries = read env (λ db. ok (length db.index_queue))

  unfoldable pub clear_index_queue : Sync J (Unit {0})
  clear_index_queue = write env (λ now db. record db { index_queue = [] })
