-- ===== src/Sync/Replay/Resync.antt =====
-- The full resync of purr-sync/src/replay.rs.
use clipkitty.Base.{ℕ, ◌+◌, ltb, List, [], ◌∷◌, length}
use clipkitty.Sync.Types.{FullResyncResult, ItemAggregate}
use clipkitty.Sync.Event.{ItemEvent, ItemSnapshot}
use clipkitty.Sync.Db.{Env}
use clipkitty.Sync.Monad.{Sync, pure, ◌>>=◌, ◌>>◌}
use clipkitty.Sync.Store.{
  ProjectionState, pending_materialization, upsert_projection, upsert_snapshot, set_dirty_flag,
  clear_sync_state, flag_needs_full_resync,
}
use clipkitty.Sync.Replay.Batch.{BatchApplyResult, apply_remote_event_batch}
use clipkitty.Sync.Replay.Tail.{events_after_checkpoints}

abbrev pub checkpoint_projection : ItemAggregate → ProjectionState
checkpoint_projection (ItemAggregate.live l) = pending_materialization l.versions
checkpoint_projection (ItemAggregate.tombstoned t) = ProjectionState.tombstoned t.versions

module _ {J : Type 0} (env : Env J) where
  unfoldable pub apply_checkpoints : List ItemSnapshot → Sync J (Unit {0})
  apply_checkpoints [] = pure tt
  apply_checkpoints (s ∷ rest) = do
    upsert_snapshot env s
    upsert_projection env s.item_id (checkpoint_projection s.aggregate)
    apply_checkpoints rest

  abbrev resync_result : ℕ → ℕ → BatchApplyResult → FullResyncResult
  resync_result checkpoints covered r = record {
    checkpoints_applied = checkpoints;
    tail_events_applied = r.events_applied + r.events_forked;
    tail_events_ignored = covered + r.events_ignored;
    tail_events_deferred = r.events_deferred;
    tail_events_forked = r.events_forked;
    fork_plans = r.fork_plans;
  }

  unfoldable pub full_resync : List ItemSnapshot → List ItemEvent → Sync J FullResyncResult
  full_resync checkpoints tail_events = do
    clear_sync_state env
    apply_checkpoints checkpoints
    r ← apply_remote_event_batch env (events_after_checkpoints checkpoints tail_events).0
    set_dirty_flag env flag_needs_full_resync (ltb 0 r.events_deferred)
    pure (resync_result (length checkpoints) (events_after_checkpoints checkpoints tail_events).1 r)

  unfoldable pub full_resync_from_snapshots : List ItemSnapshot → Sync J ℕ
  full_resync_from_snapshots snapshots = do
    result ← full_resync snapshots []
    pure result.checkpoints_applied
