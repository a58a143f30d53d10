-- ===== src/Sync/Replay.antt =====
-- purr-sync/src/replay.rs: remote events and snapshots against the local state.
pub mod Batch
pub mod Tail
pub mod Consistent
pub mod Keeps
pub mod BatchKeeps
pub mod ResyncKeeps
pub mod Settled
pub mod Stable
pub mod Revisions
pub mod Waiting
pub mod TailCount
pub mod Uncovered
pub mod Soundness
pub mod Resync
use clipkitty.Base.{
  ℕ, ◌+◌, ltb, Bool, true, false, String, Option, none, some, List, [], ◌∷◌, ◌++◌, if◌then◌else◌,
}
use clipkitty.Sync.Types.{
  ItemEventPayload, unknown, ItemAggregate, ApplyResult, applied, ignored, deferred, forked,
  ForkPlan, ProjectionDelta, VersionVector, already_applied, unsupported_version, unknown_payload,
  IgnoreReason, sync_schema_version, DownloadBatchOutcome, full_resync_required, partial_failure,
}
use clipkitty.Sync.Projector.{apply_event}
use clipkitty.Sync.Event.{ItemEvent, ItemSnapshot, compacted}
use clipkitty.Sync.Db.{Env}
use clipkitty.Sync.Monad.{Sync, pure, now, ◌>>=◌, ◌>>◌}
use clipkitty.Sync.Store.{
  ProjectionState, pending_materialization, materialized, ProjectionEntry, fetch_projection,
  upsert_projection, fetch_snapshot, upsert_snapshot, append_remote_event, is_event_applied,
  mark_event_applied, defer_event,
}

-- `existing_projection.map(|entry| entry.state)` against the arms for a live item.
unfoldable pub state_for_live : Option ProjectionEntry → VersionVector → ProjectionState
state_for_live none v = pending_materialization v
state_for_live (some entry) v = elim entry.state [
  | materialized _ ↦ materialized v
  | pending_materialization _ ↦ pending_materialization v
  | ProjectionState.tombstoned _ ↦ pending_materialization v
]

unfoldable pub projection_state_for_aggregate :
    Option ProjectionEntry → ItemAggregate → ProjectionState
unfolding state_for_live
projection_state_for_aggregate entry (ItemAggregate.live l) = state_for_live entry l.versions
projection_state_for_aggregate entry (ItemAggregate.tombstoned t) =
    ProjectionState.tombstoned t.versions

-- `plan.forked_from = Some(event.item_id)` in a fork, and nothing in another result.
unfoldable pub with_lineage : String → ApplyResult → ApplyResult
with_lineage item_id (forked plan) = forked (record plan { forked_from = some item_id })
with_lineage item_id result = result

abbrev pub aggregate_of : Option ItemSnapshot → Option ItemAggregate
aggregate_of none = none
aggregate_of (some s) = some s.aggregate

-- `map(|s| s.snapshot_revision).unwrap_or(0)`.
abbrev pub revision_of : Option ItemSnapshot → ℕ
revision_of none = 0
revision_of (some s) = s.snapshot_revision

abbrev pub raw_type_of : ItemEventPayload → Option String
raw_type_of (unknown raw_type _) = some raw_type
raw_type_of _ = none

unfoldable pub should_apply : ItemSnapshot → Option ItemSnapshot → Bool
should_apply s none = true
should_apply s (some existing) = ltb existing.snapshot_revision s.snapshot_revision

module _ {J : Type 0} (env : Env J) where
  -- Both branches on the projection read the snapshot.
  unfoldable pub load_aggregate : String → Sync J (Option ItemAggregate)
  load_aggregate item_id = do
    projection ← fetch_projection env item_id
    elim projection [
      | none ↦ (do snapshot ← fetch_snapshot env item_id; pure (aggregate_of snapshot))
      | some _ ↦ (do snapshot ← fetch_snapshot env item_id; pure (aggregate_of snapshot))
    ]

  -- The new aggregate becomes the next revision of the snapshot, and the projection follows it.
  unfoldable pub store_aggregate : ItemEvent → ItemAggregate → Sync J (Unit {0})
  store_aggregate event aggregate = do
    existing ← fetch_snapshot env event.item_id
    upsert_snapshot env (compacted event.item_id (revision_of existing) event.event_id aggregate)
    entry ← fetch_projection env event.item_id
    upsert_projection env event.item_id (projection_state_for_aggregate entry aggregate)

  -- The match on the result in `apply_remote_event`.
  unfoldable pub store_result : ItemEvent → ApplyResult → Sync J (Unit {0})
  store_result event (applied delta) = do
    append_remote_event env event
    mark_event_applied env event.event_id
    store_aggregate event delta.new_aggregate
  store_result event (ignored reason) = mark_event_applied env event.event_id
  store_result event (deferred reason) = defer_event env event reason
  store_result event (forked plan) = do
    append_remote_event env event
    mark_event_applied env event.event_id

  -- What the projector makes of the event on the item's current aggregate.
  unfoldable pub project : ItemEvent → Sync J ApplyResult
  project event = do
    aggregate ← load_aggregate event.item_id
    time ← now env
    pure (with_lineage event.item_id (apply_event env.content_hash time aggregate event.payload))

  unfoldable pub mark_ignored : ItemEvent → IgnoreReason → Sync J ApplyResult
  mark_ignored event reason = do mark_event_applied env event.event_id; pure (ignored reason)

  unfoldable pub project_and_store : ItemEvent → Sync J ApplyResult
  project_and_store event = do result ← project event; store_result event result; pure result

  -- An event that is not in the dedup table.
  unfoldable pub receive : ItemEvent → Sync J ApplyResult
  receive event =
      if ltb sync_schema_version event.schema_version
      then mark_ignored event (unsupported_version event.schema_version sync_schema_version)
      else elim (raw_type_of event.payload) [
        | some raw_type ↦ mark_ignored event (unknown_payload raw_type)
        | none ↦ project_and_store event
      ]

  unfoldable pub apply_remote_event : ItemEvent → Sync J ApplyResult
  apply_remote_event event = do
    seen ← is_event_applied env event.event_id
    if seen then pure (ignored already_applied) else receive event

  unfoldable pub store_snapshot : ItemSnapshot → Sync J Bool
  store_snapshot s = do
    upsert_snapshot env s
    entry ← fetch_projection env s.item_id
    upsert_projection env s.item_id (projection_state_for_aggregate entry s.aggregate)
    pure true

  -- One round of the loop of `apply_remote_snapshots`.
  unfoldable pub apply_remote_snapshot : ItemSnapshot → Sync J Bool
  apply_remote_snapshot s = do
    existing ← fetch_snapshot env s.item_id
    if should_apply s existing then store_snapshot s else pure false

  -- The loop of `apply_remote_snapshots`.
  unfoldable pub apply_snapshots_from : ℕ → List ItemSnapshot → Sync J ℕ
  apply_snapshots_from count [] = pure count
  apply_snapshots_from count (s ∷ rest) = do
    done ← apply_remote_snapshot s
    apply_snapshots_from (if done then count + 1 else count) rest

  unfoldable pub apply_remote_snapshots : List ItemSnapshot → Sync J ℕ
  apply_remote_snapshots snapshots = apply_snapshots_from 0 snapshots
