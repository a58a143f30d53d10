-- ===== src/Sync/Tests.antt =====
-- Inputs at which the theorems apply.
use clipkitty.Base.{pos, ◌≡◌, ◌<◌, ◌⊎◌, refl, true, false, some, [], ◌∷◌, arith, ltb, All}
use clipkitty.Sync.Types.{
  VersionDomain, content, ItemAggregate, live, text_edited, bookmark_set, unknown, applied, ignored,
  ApplyResult, FullResyncResult, already_applied,
}
use clipkitty.Sync.Projector.{apply_event}
use clipkitty.Sync.Projector.Outcome.{
  BaseVerdict, is_deferred, forked_text, applied_text, apply_event-by_base, apply_event-keeps_text,
}
use clipkitty.Sync.Projector.Commute.{after, apply_event_comm}
use clipkitty.Sync.Examples.{
  hash, note, edited, created, event, test_env, empty-IsConsistent, test_env-IsQuiet, empty_world,
  stored_serde, stored_serde-IsSerde, Stored,
}
use clipkitty.Base.Table.{find, upsert, insert_ignore, order_by}
use clipkitty.Sync.Db.{World}
use clipkitty.Sync.Monad.{read, write, exec, statement, now, pure, ◌>>=◌, ◌>>◌, continue}
use clipkitty.Sync.Compactor.{not_needed, no_events, compact_item}
use clipkitty.Sync.Compactor.Folding.{IsStaleEdit, uncompacted, compact_item-stale_edits}
use clipkitty.Sync.Event.{
  ok, ItemEvent, initial, event_from_stored, payload_type, payload_data,
  event_from_stored-payload_data,
}
use clipkitty.Sync.Store.{
  row_of_event, event_of_row, row_of_snapshot, snapshot_key, optional_snapshot, is_event_applied,
  append_remote_event, mark_event_applied, fetch_snapshot, fetch_projection, upsert_snapshot,
  upsert_projection,
}
use clipkitty.Sync.Replay.{
  receive, project_and_store, project, load_aggregate, store_result, store_aggregate, with_lineage,
  apply_remote_event,
}
use clipkitty.Sync.Replay.Batch.{BatchApplyResult, apply_remote_event_batch}
use clipkitty.Sync.Replay.Resync.{full_resync}
use clipkitty.Sync.Replay.Consistent.{IsConsistent}
use clipkitty.Sync.Replay.ResyncKeeps.{FlagReads, replayed}
use clipkitty.Sync.Replay.Stable.{AllKnown}
use clipkitty.Sync.Replay.Settled.{IsSettled, apply_remote_event-once}
use clipkitty.Sync.Replay.Soundness.{
  apply_remote_event-settles, apply_remote_event_batch-IsConsistent, full_resync-IsConsistent,
}

apply_event-by_base_example :
    BaseVerdict
      (text_edited "b" 0)
      content
      0
      1
      (apply_event hash (pos 9) (some (live note)) (text_edited "b" 0))
apply_event-by_base_example =
    apply_event-by_base hash (pos 9) note (text_edited "b" 0) content 0 refl

apply_event-keeps_text_example :
    (applied_text (apply_event hash (pos 9) (some (live note)) (text_edited "b" 3)) ≡ some "b")
    ⊎ (forked_text (apply_event hash (pos 9) (some (live note)) (text_edited "b" 3)) ≡ some "b")
    ⊎ ((is_deferred (apply_event hash (pos 9) (some (live note)) (text_edited "b" 3)) ≡ true)
        × (1 < 3))
apply_event-keeps_text_example = apply_event-keeps_text hash (pos 9) (live note) "b" 3

apply_event-comm_example :
    (a : ItemAggregate) × (after hash
        (pos 9)
        (after hash (pos 9) (some (live note)) (bookmark_set 0))
        (text_edited "b" 1)
      ≡ some a)
    × (after hash
          (pos 9)
          (after hash (pos 9) (some (live note)) (text_edited "b" 1))
          (bookmark_set 0)
        ≡ some a)
apply_event-comm_example =
    apply_event_comm hash (pos 9) (bookmark_set 0) (text_edited "b" 1) note refl refl refl

-- An event of a newer version.
abbrev newer : ItemEvent
newer = record edited { payload = unknown "item_pinned" "{}" }

event_from_stored-payload_data_example :
    event_from_stored stored_serde "e2" "i" "d" 1
      (pos 1)
      (payload_type newer)
      (payload_data stored_serde newer)
    ≡ newer
event_from_stored-payload_data_example =
    event_from_stored-payload_data stored_serde newer stored_serde-IsSerde refl

apply_remote_event-settles_example :
    let (result, w') = apply_remote_event test_env edited empty_world in
    (r : ApplyResult) × (result ≡ ok r) × (IsConsistent test_env w'.db × IsSettled "e2" r w'.db)
apply_remote_event-settles_example =
    apply_remote_event-settles test_env stored_serde-IsSerde test_env-IsQuiet edited empty_world
      empty-IsConsistent

apply_remote_event_batch-IsConsistent_example :
    let (result, w') = apply_remote_event_batch test_env (edited ∷ created ∷ []) empty_world in
    (r : BatchApplyResult) × (result ≡ ok r)
    × (IsConsistent test_env w'.db × AllKnown (edited ∷ created ∷ []) w'.db)
apply_remote_event_batch-IsConsistent_example =
    apply_remote_event_batch-IsConsistent test_env stored_serde-IsSerde test_env-IsQuiet
      (edited ∷ created ∷ []) empty_world empty-IsConsistent

full_resync-IsConsistent_example :
    let (result, w') =
      full_resync test_env (initial "i" (live note) ∷ []) (edited ∷ []) empty_world in
    (r : FullResyncResult) × (result ≡ ok r)
    × ((IsConsistent test_env w'.db
          × AllKnown (replayed (initial "i" (live note) ∷ []) (edited ∷ [])) w'.db)
        × FlagReads (ltb 0 r.tail_events_deferred) w'.db)
full_resync-IsConsistent_example =
    full_resync-IsConsistent test_env stored_serde-IsSerde test_env-IsQuiet
      (initial "i" (live note) ∷ []) (edited ∷ []) empty_world

-- The creation of an item on the empty database applies.
first_outcome :
    (apply_remote_event test_env created empty_world).0
    ≡ ok (
        applied (record {
          new_aggregate = live note;
          bumped_domains =
              content ∷ VersionDomain.existence ∷ VersionDomain.touch ∷ VersionDomain.metadata ∷ [];
          read_model_dirty = true;
          index_dirty = true;
        }))
unfolding apply_remote_event is_event_applied receive project_and_store project load_aggregate
    store_result store_aggregate append_remote_event mark_event_applied fetch_snapshot
    fetch_projection upsert_snapshot upsert_projection apply_event with_lineage read write exec
    statement now pure ◌>>=◌ ◌>>◌ continue find upsert insert_ignore optional_snapshot
first_outcome = refl

apply_remote_event-once_example :
    let w' = (apply_remote_event test_env created empty_world).1 in
    ((apply_remote_event test_env created w').0 ≡ ok (ignored already_applied))
    × ((apply_remote_event test_env created w').1.db ≡ w'.db)
apply_remote_event-once_example =
    apply_remote_event-once test_env stored_serde-IsSerde created empty_world _ test_env-IsQuiet
      empty-IsConsistent refl first_outcome

-- The item's text was edited already, and an edit from the same base came after.
abbrev stale_world : World Stored
stale_world = record {
  db = record (empty_world.db) {
    events = row_of_event test_env false true (event "e3" (text_edited "c" 0)) ∷ [];
    snapshots = row_of_snapshot test_env (initial "i" (live note)) ∷ [];
  };
  ticks = 0;
}

stale_found :
    find snapshot_key "i" stale_world.db.snapshots
    ≡ some (row_of_snapshot test_env (initial "i" (live note)))
unfolding find row_of_snapshot initial
stale_found = refl

stale_decoded :
    test_env.serde.decode_aggregate
      (row_of_snapshot test_env (initial "i" (live note))).aggregate_state
    ≡ some (live note)
unfolding row_of_snapshot initial
stale_decoded = refl

stale_edits : All (λ e. IsStaleEdit note e.payload) (uncompacted test_env "i" stale_world.db)
unfolding order_by row_of_event event_of_row
stale_edits = (ground arith, tt)

compact_item-stale_edits_example :
    let (result, w') = compact_item test_env "i" stale_world in
    (w'.db ≡ stale_world.db) × ((result ≡ ok not_needed) ⊎ (result ≡ ok no_events))
compact_item-stale_edits_example =
    compact_item-stale_edits test_env "i" stale_world
      (row_of_snapshot test_env (initial "i" (live note))) note test_env-IsQuiet stale_found
      stale_decoded stale_edits
