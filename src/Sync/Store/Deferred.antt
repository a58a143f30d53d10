-- ===== src/Sync/Store/Deferred.antt =====
-- Deferred events and the marks of applied ones: tables sync_deferred_events and sync_dedup of
-- purr-sync/src/store.rs.
use clipkitty.Base.{ℕ, ℤ, ltb_ℤ, Bool, not, String, List, [], map, str_eq, length, keep, is_some}
use clipkitty.Base.Table.{find, insert_ignore, delete, replace, order_by}
use clipkitty.Sync.Types.{DeferredReason, missing_item, future_version}
use clipkitty.Sync.Event.{ItemEvent, ok, payload_type, payload_data, event_from_stored}
use clipkitty.Sync.Db.{DeferredRow, DedupRow, Env}
use clipkitty.Sync.Monad.{Sync, read, write}

abbrev pub deferred_key : {J : Type 0} → DeferredRow J → String
deferred_key r = r.event_id

abbrev pub dedup_key : DedupRow → String
dedup_key r = r.event_id

-- ORDER BY recorded_at ASC.
abbrev pub deferred_by_time : {J : Type 0} → DeferredRow J → DeferredRow J → Bool
deferred_by_time r s = not (ltb_ℤ s.recorded_at r.recorded_at)

module _ {J : Type 0} (env : Env J) where
  unfoldable pub reason_text : DeferredReason → String
  reason_text missing_item = "missing_item"
  reason_text (future_version domain event_base current) =
      env.format_future domain event_base current

  unfoldable pub row_of_deferred : ℤ → ItemEvent → DeferredReason → DeferredRow J
  unfolding reason_text payload_type payload_data
  row_of_deferred now e reason = record {
    event_id = e.event_id;
    item_id = e.item_id;
    origin_device_id = e.origin_device_id;
    schema_version = e.schema_version;
    recorded_at = e.recorded_at;
    payload_type = payload_type e;
    payload_data = payload_data env.serde e;
    deferred_reason = reason_text reason;
    deferred_at = now;
  }

  unfoldable pub event_of_deferred : DeferredRow J → ItemEvent
  unfolding event_from_stored
  event_of_deferred r =
      event_from_stored env.serde r.event_id r.item_id r.origin_device_id r.schema_version
        r.recorded_at r.payload_type r.payload_data

  unfoldable pub defer_event : ItemEvent → DeferredReason → Sync J (Unit {0})
  unfolding row_of_deferred
  defer_event e reason = write env (λ now db. record db {
    deferred = replace deferred_key (row_of_deferred now e reason) db.deferred;
  })

  unfoldable pub fetch_deferred_events_for_item : String → Sync J (List ItemEvent)
  unfolding event_of_deferred
  fetch_deferred_events_for_item item_id = read env (λ db. ok (
      map event_of_deferred
        (order_by deferred_by_time (keep (λ r. str_eq r.item_id item_id) db.deferred))))

  unfoldable pub fetch_all_deferred_events : Sync J (List ItemEvent)
  unfolding event_of_deferred
  fetch_all_deferred_events =
      read env (λ db. ok (map event_of_deferred (order_by deferred_by_time db.deferred)))

  unfoldable pub remove_deferred_event : String → Sync J (Unit {0})
  remove_deferred_event event_id =
      write env (λ now db. record db { deferred = delete deferred_key event_id db.deferred })

  unfoldable pub clear_deferred_events : Sync J (Unit {0})
  clear_deferred_events = write env (λ now db. record db { deferred = [] })

  unfoldable pub count_deferred_events : Sync J ℕ
  count_deferred_events = read env (λ db. ok (length db.deferred))

  unfoldable pub is_event_applied : String → Sync J Bool
  is_event_applied event_id = read env (λ db. ok (is_some (find dedup_key event_id db.dedup)))

  unfoldable pub mark_event_applied : String → Sync J (Unit {0})
  mark_event_applied event_id = write env (λ now db. record db {
    dedup = insert_ignore dedup_key (record { event_id = event_id; applied_at = now }) db.dedup;
  })

  unfoldable pub clear_dedup : Sync J (Unit {0})
  clear_dedup = write env (λ now db. record db { dedup = [] })
