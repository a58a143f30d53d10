-- ===== src/Sync/Compactor.antt =====
-- purr-sync/src/compactor.rs: the event tail of an item is folded into its snapshot.
pub mod Folding
pub mod Purge
pub mod Storing
pub mod Triggers
use clipkitty.Base.{
  ℕ, ◌+◌, ◌*◌, ltb, leb, ◌==◌, ℤ, pos, leb_ℤ, ltb_ℤ, sub_i64, Bool, true, false, ◌&&◌, String,
  Option, none, some, List, [], ◌∷◌, ◌++◌, is_empty, last?, length, if◌then◌else◌,
}
use clipkitty.Sync.Types.{
  ItemAggregate, tombstoned, ApplyResult, applied, ignored, deferred, forked,
}
use clipkitty.Sync.Projector.{apply_event}
use clipkitty.Sync.Event.{ItemEvent, ItemSnapshot, compacted}
use clipkitty.Sync.Db.{Env}
use clipkitty.Sync.Monad.{Sync, pure, now, ◌>>=◌, ◌>>◌}
use clipkitty.Sync.Store.{
  count_uncompacted_events, uncompacted_payload_size, oldest_uncompacted_event_time, fetch_snapshot,
  fetch_uncompacted_events, upsert_snapshot, mark_events_compacted, items_with_uncompacted_events,
  fetch_checkpoint_safe_purgeable_events, delete_events_by_ids, fetch_all_snapshots,
  delete_snapshot, delete_projection,
}
use clipkitty.Sync.Replay.{aggregate_of, revision_of}

abbrev pub compaction_event_threshold : ℕ
compaction_event_threshold = 32

abbrev pub compaction_payload_threshold : ℕ
compaction_payload_threshold = 128 * 1024

abbrev pub compaction_age_threshold_secs : ℤ
compaction_age_threshold_secs = pos (7 * 24 * 3600)

abbrev pub tombstone_compaction_age_secs : ℤ
tombstone_compaction_age_secs = pos (30 * 24 * 3600)

abbrev pub tombstone_snapshot_retention_secs : ℤ
tombstone_snapshot_retention_secs = pos (2 * 365 * 24 * 3600)

abbrev pub compacted_event_retention_secs : ℤ
compacted_event_retention_secs = pos (30 * 24 * 3600)

pub data CompactionOutcome : Type 0 where
  compacted_to : ItemSnapshot → ℕ → CompactionOutcome  -- snapshot, events_compacted
  not_needed : CompactionOutcome
  no_events : CompactionOutcome

-- What the loop of `compact_item` carries.
pub record Fold : Type 0 where
  pub aggregate : Option ItemAggregate
  pub applied_event_ids : List String

-- The match on the result for one event.
unfoldable pub fold_result : String → ApplyResult → Fold → Fold
fold_result event_id (applied delta) f = record {
  aggregate = some delta.new_aggregate;
  applied_event_ids = f.applied_event_ids ++ event_id ∷ [];
}
fold_result event_id (ignored reason) f = record f {
  applied_event_ids = f.applied_event_ids ++ event_id ∷ [];
}
fold_result event_id (deferred reason) f = f
fold_result event_id (forked plan) f = f

unfoldable pub is_old : ℤ → Option ℤ → Bool
is_old time none = false
is_old time (some oldest) = leb_ℤ compaction_age_threshold_secs (sub_i64 time oldest)

unfoldable pub is_old_tombstone : ℤ → ℕ → Option ItemSnapshot → Bool
is_old_tombstone time count none = false
is_old_tombstone time count (some s) = elim s.aggregate [
  | ItemAggregate.live _ ↦ false
  | tombstoned t ↦
      leb_ℤ tombstone_compaction_age_secs (sub_i64 time t.deleted_at_unix) && ltb 0 count
]

unfoldable pub is_expired_tombstone : ℤ → ItemSnapshot → Bool
is_expired_tombstone threshold s = elim s.aggregate [
  | ItemAggregate.live _ ↦ false
  | tombstoned t ↦ ltb_ℤ t.deleted_at_unix threshold
]

module _ {J : Type 0} (env : Env J) where
  -- The tests by age, made where neither the count nor the size asks for a compaction.
  unfoldable pub needs_compaction_by_age : String → ℕ → Sync J Bool
  needs_compaction_by_age item_id count = do
    time ← now env
    oldest ← oldest_uncompacted_event_time env item_id
    if is_old time oldest
        then pure true
        else (do snapshot ← fetch_snapshot env item_id; pure (is_old_tombstone time count snapshot))

  unfoldable pub needs_compaction_by_size : String → ℕ → Sync J Bool
  needs_compaction_by_size item_id count = do
    size ← uncompacted_payload_size env item_id
    if leb compaction_payload_threshold size
        then pure true
        else needs_compaction_by_age item_id count

  unfoldable pub needs_compaction : String → Sync J Bool
  needs_compaction item_id = do
    count ← count_uncompacted_events env item_id
    if count == 0
        then pure false
        else if leb compaction_event_threshold count
        then pure true
        else needs_compaction_by_size item_id count

  unfoldable pub fold_events : Fold → List ItemEvent → Sync J Fold
  fold_events f [] = pure f
  fold_events f (event ∷ rest) = do
    time ← now env
    fold_events
        (fold_result event.event_id (apply_event env.content_hash time f.aggregate event.payload) f)
        rest

  -- The new snapshot, where events were folded into an aggregate.
  unfoldable pub store_fold : String → Option ItemSnapshot → Fold → Sync J CompactionOutcome
  store_fold item_id existing f = elim f.aggregate [
    | none ↦ pure not_needed
    | some final ↦ elim (last? f.applied_event_ids) [
      | none ↦ pure not_needed
      | some last_event_id ↦ (do
        upsert_snapshot env (compacted item_id (revision_of existing) last_event_id final)
        mark_events_compacted env f.applied_event_ids
        pure (
            compacted_to (compacted item_id (revision_of existing) last_event_id final)
              (length f.applied_event_ids)))
    ]
  ]

  unfoldable pub compact_item : String → Sync J CompactionOutcome
  compact_item item_id = do
    events ← fetch_uncompacted_events env item_id
    if is_empty events then pure no_events else (do
      existing ← fetch_snapshot env item_id
      folded ←
          fold_events (record { aggregate = aggregate_of existing; applied_event_ids = [] }) events
      store_fold item_id existing folded)

  abbrev count_outcome : CompactionOutcome → ℕ → ℕ
  count_outcome (compacted_to _ _) n = n + 1
  count_outcome _ n = n

  unfoldable pub compact_items : ℕ → List String → Sync J ℕ
  compact_items count [] = pure count
  compact_items count (item_id ∷ rest) = do
    needed ← needs_compaction item_id
    if needed
        then (do outcome ← compact_item item_id; compact_items (count_outcome outcome count) rest)
        else compact_items count rest

  unfoldable pub compact_all : Sync J ℕ
  compact_all = do item_ids ← items_with_uncompacted_events env; compact_items 0 item_ids

  unfoldable pub purge_retained_events : Sync J ℕ
  purge_retained_events = do
    time ← now env
    ids ← fetch_checkpoint_safe_purgeable_events env (sub_i64 time compacted_event_retention_secs)
    if is_empty ids then pure 0 else delete_events_by_ids env ids

  unfoldable pub purge_snapshots : ℤ → ℕ → List ItemSnapshot → Sync J ℕ
  purge_snapshots threshold purged [] = pure purged
  purge_snapshots threshold purged (s ∷ rest) =
      let drop = (do
        delete_snapshot env s.item_id
        delete_projection env s.item_id
        purge_snapshots threshold (purged + 1) rest) in
      let skip = purge_snapshots threshold purged rest in
      if is_expired_tombstone threshold s then drop else skip

  unfoldable pub purge_tombstone_snapshots : Sync J ℕ
  purge_tombstone_snapshots = do
    time ← now env
    snapshots ← fetch_all_snapshots env
    purge_snapshots (sub_i64 time tombstone_snapshot_retention_secs) 0 snapshots
