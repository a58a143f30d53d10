-- ===== src/Sync/LoopTests.antt =====
-- Inputs at which the theorems on the loops of the replay and of the compactor apply.
use clipkitty.Base.{
  arith, List, All, ℕ, ◌≡◌, refl, pos, true, false, none, some, [], ◌∷◌, length, ltb,
}
use clipkitty.Base.Table.{find}
use clipkitty.Sync.Types.{IndexQueueEntry, live}
use clipkitty.Sync.Event.{initial, ok}
use clipkitty.Sync.Db.{World}
use clipkitty.Sync.Monad.{read, exec, statement}
use clipkitty.Sync.Store.Rebuild.{IsUpsert, fetch_index_queue-rebuilt}
use clipkitty.Sync.Store.{
  replace_index_queue_with_full_rebuild, fetch_index_queue, row_of_event, row_of_snapshot,
  count_uncompacted_events, uncompacted_payload_size, oldest_uncompacted_event_time, fetch_snapshot,
  optional_snapshot, minimum, sum, snapshot_key,
}
use clipkitty.Sync.Projector.{apply_event}
use clipkitty.Sync.Replay.{apply_remote_snapshots}
use clipkitty.Sync.Replay.Batch.{BatchApplyResult, apply_remote_event_batch, download_outcome}
use clipkitty.Sync.Replay.Revisions.{apply_remote_snapshots-newest, stored_revision, newest}
use clipkitty.Sync.Replay.Waiting.{apply_remote_event_batch-asks, requires_resync}
use clipkitty.Sync.Replay.Consistent.{IsConsistent}
use clipkitty.Sync.Compactor.{compact_item, needs_compaction}
use clipkitty.Sync.Compactor.Folding.{uncompacted}
use clipkitty.Sync.Compactor.Storing.{Compacts, counted_ids, compact_item-Compacts}
use clipkitty.Sync.Compactor.Triggers.{is_due, needs_compaction-is_due}
use clipkitty.Sync.Examples.{
  note, created, edited, test_env, test_env-IsQuiet, empty_world, empty-IsConsistent,
  stored_serde-IsSerde, Stored,
}

apply_remote_snapshots-newest_example :
    let (result, w') = apply_remote_snapshots test_env (initial "i" (live note) ∷ []) empty_world in
    (n : ℕ) × (result ≡ ok n)
    × (IsConsistent test_env w'.db
        × (stored_revision "i" w'.db
            ≡ newest "i" (stored_revision "i" empty_world.db) (initial "i" (live note) ∷ [])))
apply_remote_snapshots-newest_example =
    apply_remote_snapshots-newest test_env stored_serde-IsSerde "i" (initial "i" (live note) ∷ [])
      empty_world test_env-IsQuiet empty-IsConsistent

apply_remote_event_batch-asks_example :
    let (result, w') = apply_remote_event_batch test_env (edited ∷ []) empty_world in
    (r : BatchApplyResult) × (result ≡ ok r)
    × (r.needs_full_resync ≡ ltb 0 (length w'.db.deferred))
    × (requires_resync (download_outcome r 0) ≡ ltb 0 (length w'.db.deferred))
apply_remote_event_batch-asks_example =
    apply_remote_event_batch-asks test_env stored_serde-IsSerde (edited ∷ []) empty_world 0
      test_env-IsQuiet empty-IsConsistent

-- One event of an item without a snapshot.
abbrev one_event : World Stored
one_event = record {
  db = record (empty_world.db) { events = row_of_event test_env false true edited ∷ [] };
  ticks = 0;
}

one_counted : (count_uncompacted_events test_env "i" one_event).0 ≡ ok 1
unfolding count_uncompacted_events read exec statement row_of_event
one_counted = refl

one_sized : (uncompacted_payload_size test_env "i" one_event).0 ≡ ok 1
unfolding uncompacted_payload_size read exec statement row_of_event sum
one_sized = refl

one_dated : (oldest_uncompacted_event_time test_env "i" one_event).0 ≡ ok (some (pos 1))
unfolding oldest_uncompacted_event_time read exec statement row_of_event minimum
one_dated = refl

none_stored : (fetch_snapshot test_env "i" one_event).0 ≡ ok none
unfolding fetch_snapshot read exec statement find optional_snapshot
none_stored = refl

needs_compaction-is_due_example :
    (needs_compaction test_env "i" one_event).0 ≡ ok (is_due 1 1 (some (pos 1)) none 2)
needs_compaction-is_due_example =
    needs_compaction-is_due test_env "i" one_event 1 1 2 (some (pos 1)) none test_env-IsQuiet
      one_counted one_sized one_dated none_stored refl (omega arith, omega arith) (omega arith)

-- An old event that was compacted, of an item whose snapshot was uploaded.
abbrev old_event : World Stored
old_event = record {
  db = record (empty_world.db) {
    events = record (row_of_event test_env false true edited) { compacted = true } ∷ [];
    snapshots =
        record (row_of_snapshot test_env (initial "i" (live note))) { uploaded = true } ∷ [];
  };
  ticks = 9000000;
}

fetch_index_queue-rebuilt_example :
    let w' = (replace_index_queue_with_full_rebuild test_env ("i" ∷ "j" ∷ []) empty_world).1 in
    (es : List IndexQueueEntry) × ((fetch_index_queue test_env 6 w').0
      ≡ ok (IndexQueueEntry.reset ∷ es))
    × All IsUpsert es
fetch_index_queue-rebuilt_example =
    fetch_index_queue-rebuilt test_env ("i" ∷ "j" ∷ []) 5 empty_world test_env-IsQuiet
      (refl, (refl, tt))

-- The creation of an item and an edit of it, with no snapshot yet.
abbrev created_world : World Stored
created_world = record {
  db = record (empty_world.db) {
    events =
        row_of_event test_env false true created ∷ row_of_event test_env false true edited ∷ [];
  };
  ticks = 0;
}

nothing_stored :
    optional_snapshot test_env (find snapshot_key "i" created_world.db.snapshots) ≡ ok none
unfolding find optional_snapshot
nothing_stored = refl

compact_item-Compacts_example :
    let (result, w') = compact_item test_env "i" created_world in
    Compacts test_env "i" none 2
      (uncompacted test_env "i" created_world.db)
      created_world.db
      result
      w'.db
compact_item-Compacts_example =
    compact_item-Compacts test_env "i" none created_world test_env-IsQuiet nothing_stored

-- It is compacted to the edited item, by both events.
two_compacted : counted_ids test_env 2 none (created ∷ edited ∷ []) ≡ "e1" ∷ "e2" ∷ []
unfolding apply_event
two_compacted = refl
