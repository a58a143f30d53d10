-- ===== src/Sync/Store/Events.antt =====
-- The event log: table sync_events of purr-sync/src/store.rs.
use clipkitty.Base.{
  ℕ, ◌+◌, ℤ, ltb_ℤ, Bool, true, false, not, ◌&&◌, ◌||◌, String, Option, none, some, List, [], ◌∷◌,
  ◌++◌, map, str_eq, length, keep, is_empty, is_some, if◌then◌else◌,
}
use clipkitty.Base.Text.{str_leb}
use clipkitty.Base.Table.{find, insert_ignore, update_where, order_by, contains}
use clipkitty.Sync.Event.{ItemEvent, ok, err, sqlite, payload_type, payload_data, event_from_stored}
use clipkitty.Sync.Db.{EventRow, Env}
use clipkitty.Sync.Monad.{Sync, pure, exec, read, write}

abbrev pub event_key : {J : Type 0} → EventRow J → String
event_key r = r.event_id

-- WHERE item_id = ?1 AND compacted = 0.
abbrev pub is_uncompacted_of : {J : Type 0} → String → EventRow J → Bool
is_uncompacted_of item_id r = str_eq r.item_id item_id && not r.compacted

-- ORDER BY recorded_at ASC, event_id ASC.
abbrev pub in_order : {J : Type 0} → EventRow J → EventRow J → Bool
in_order r s =
    ltb_ℤ r.recorded_at s.recorded_at
    || (not (ltb_ℤ s.recorded_at r.recorded_at) && str_leb r.event_id s.event_id)

-- ORDER BY recorded_at ASC.
abbrev pub by_time : {J : Type 0} → EventRow J → EventRow J → Bool
by_time r s = not (ltb_ℤ s.recorded_at r.recorded_at)

unfoldable pub distinct : List String → List String
distinct [] = []
distinct (k ∷ ks) = k ∷ keep (λ j. not (str_eq j k)) (distinct ks)

unfoldable pub sum : List ℕ → ℕ
sum [] = 0
sum (n ∷ ns) = n + sum ns

-- MIN, which is NULL over no rows.
unfoldable pub minimum : List ℤ → Option ℤ
minimum [] = none
minimum (t ∷ ts) = elim (minimum ts) [ none ↦ some t | some u ↦ some (if ltb_ℤ u t then u else t) ]

module _ {J : Type 0} (env : Env J) where
  unfoldable pub row_of_event : Bool → Bool → ItemEvent → EventRow J
  unfolding payload_type payload_data
  row_of_event is_local uploaded e = record {
    event_id = e.event_id;
    item_id = e.item_id;
    origin_device_id = e.origin_device_id;
    schema_version = e.schema_version;
    recorded_at = e.recorded_at;
    payload_type = payload_type e;
    payload_data = payload_data env.serde e;
    is_local = is_local;
    uploaded = uploaded;
    compacted = false;
  }

  unfoldable pub event_of_row : EventRow J → ItemEvent
  unfolding event_from_stored
  event_of_row r =
      event_from_stored env.serde r.event_id r.item_id r.origin_device_id r.schema_version
        r.recorded_at r.payload_type r.payload_data

  -- INSERT, which fails where the primary key is there already.
  unfoldable pub append_local_event : ItemEvent → Sync J (Unit {0})
  unfolding row_of_event
  append_local_event e = exec env (λ now db.
      if is_some (find event_key e.event_id db.events)
      then (err (sqlite "UNIQUE constraint failed: sync_events.event_id"), db)
      else (ok tt, record db { events = db.events ++ row_of_event true false e ∷ [] }))

  unfoldable pub append_remote_event : ItemEvent → Sync J (Unit {0})
  unfolding row_of_event
  append_remote_event e = write env (λ now db. record db {
    events = insert_ignore event_key (row_of_event false true e) db.events;
  })

  unfoldable pub fetch_uncompacted_events : String → Sync J (List ItemEvent)
  unfolding event_of_row
  fetch_uncompacted_events item_id =
      read env (λ db.
        ok (map event_of_row (order_by in_order (keep (is_uncompacted_of item_id) db.events))))

  unfoldable pub fetch_pending_upload_events : Sync J (List ItemEvent)
  unfolding event_of_row
  fetch_pending_upload_events = read env (λ db.
      ok (map event_of_row (order_by by_time (keep (λ r. r.is_local && not r.uploaded) db.events))))

  unfoldable pub mark_events_uploaded : List String → Sync J (Unit {0})
  mark_events_uploaded event_ids =
      if is_empty event_ids
      then pure tt
      else write env (λ now db. record db {
        events =
            update_where (λ r. contains event_ids r.event_id) (λ r. record r { uploaded = true })
              db.events;
      })

  unfoldable pub mark_events_compacted : List String → Sync J (Unit {0})
  mark_events_compacted event_ids =
      if is_empty event_ids
      then pure tt
      else write env (λ now db. record db {
        events =
            update_where (λ r. contains event_ids r.event_id) (λ r. record r { compacted = true })
              db.events;
      })

  -- DELETE … WHERE, which returns how many rows went.
  unfoldable pub delete_events_where : (EventRow J → Bool) → Sync J ℕ
  delete_events_where test = exec env (λ now db. (
    ok (length (keep test db.events)),
    record db { events = keep (λ r. not (test r)) db.events },
  ))

  unfoldable pub delete_compacted_events_before : ℤ → Sync J ℕ
  unfolding delete_events_where
  delete_compacted_events_before threshold =
      delete_events_where (λ r. r.compacted && ltb_ℤ r.recorded_at threshold)

  unfoldable pub delete_events_by_ids : List String → Sync J ℕ
  unfolding delete_events_where
  delete_events_by_ids event_ids =
      if is_empty event_ids
      then pure 0
      else delete_events_where (λ r. contains event_ids r.event_id)

  -- One transaction: both deletions are made, or neither.
  unfoldable pub delete_events_and_dedup_by_ids : List String → Sync J ℕ
  delete_events_and_dedup_by_ids event_ids =
      if is_empty event_ids
      then pure 0
      else exec env (λ now db. (
        ok (length (keep (λ r. contains event_ids r.event_id) db.events)),
        record db {
          events = keep (λ r. not (contains event_ids r.event_id)) db.events;
          dedup = keep (λ r. not (contains event_ids r.event_id)) db.dedup;
        },
      ))

  unfoldable pub count_uncompacted_events : String → Sync J ℕ
  count_uncompacted_events item_id =
      read env (λ db. ok (length (keep (is_uncompacted_of item_id) db.events)))

  unfoldable pub uncompacted_payload_size : String → Sync J ℕ
  unfolding sum
  uncompacted_payload_size item_id = read env (λ db. ok (
      sum (
        map (λ r. env.serde.char_length r.payload_data)
          (keep (is_uncompacted_of item_id) db.events))))

  unfoldable pub oldest_uncompacted_event_time : String → Sync J (Option ℤ)
  unfolding minimum
  oldest_uncompacted_event_time item_id =
      read env
        (λ db. ok (minimum (map (λ r. r.recorded_at) (keep (is_uncompacted_of item_id) db.events))))

  unfoldable pub items_with_uncompacted_events : Sync J (List String)
  unfolding distinct
  items_with_uncompacted_events =
      read env (λ db. ok (distinct (map (λ r. r.item_id) (keep (λ r. not r.compacted) db.events))))

  unfoldable pub fetch_purgeable_cloud_event_ids : ℤ → Sync J (List String)
  fetch_purgeable_cloud_event_ids older_than = read env (λ db. ok (
      map (λ r. r.event_id)
        (keep (λ r. (r.compacted && r.uploaded) && ltb_ℤ r.recorded_at older_than) db.events)))
