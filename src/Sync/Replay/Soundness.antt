-- ===== src/Sync/Replay/Soundness.antt =====
-- The entry points of purr-sync/src/replay.rs, run where no statement fails.
use clipkitty.Base.{ltb, List, ◌≡◌}
use clipkitty.Sync.Types.{ApplyResult, FullResyncResult}
use clipkitty.Sync.Event.{IsSerde, ItemEvent, ItemSnapshot, ok}
use clipkitty.Sync.Db.{Env, World}
use clipkitty.Sync.Monad.{IsQuiet, Ensures-run}
use clipkitty.Sync.Replay.{apply_remote_event}
use clipkitty.Sync.Replay.Batch.{BatchApplyResult, apply_remote_event_batch}
use clipkitty.Sync.Replay.Resync.{full_resync}
use clipkitty.Sync.Replay.Consistent.{IsConsistent}
use clipkitty.Sync.Replay.BatchKeeps.{apply_remote_event_batch-AllKnown}
use clipkitty.Sync.Replay.ResyncKeeps.{full_resync-AllKnown, FlagReads, replayed}
use clipkitty.Sync.Replay.Stable.{AllKnown}
use clipkitty.Sync.Replay.Settled.{IsSettled, apply_remote_event-Settling}

module _ {J : Type 0} (env : Env J) (laws : IsSerde env.serde) (quiet : IsQuiet env) where
  -- Where no statement fails and the serialiser reads back what it wrote, a remote event on a
  -- consistent database is taken with some outcome. The database stays consistent, and the event
  -- waits in the table of deferred events if it was deferred, and is marked as applied if it was
  -- applied, ignored or forked.
  pub apply_remote_event-settles :
      (e : ItemEvent) (w : World J)
      → IsConsistent env w.db
      → let (result, w') = apply_remote_event env e w in
        (r : ApplyResult) × (result ≡ ok r)
        × (IsConsistent env w'.db × IsSettled e.event_id r w'.db)
  apply_remote_event-settles e w good =
      Ensures-run (apply_remote_event-Settling env laws e) quiet w good

  -- Where no statement fails and the serialiser reads back what it wrote, a batch of remote events
  -- on a consistent database ends with a result and leaves the database consistent, and every event
  -- of the batch is then marked as applied or waits as deferred, after the retries of deferred
  -- events too.
  pub apply_remote_event_batch-IsConsistent :
      (es : List ItemEvent) (w : World J)
      → IsConsistent env w.db
      → let (result, w') = apply_remote_event_batch env es w in
        (r : BatchApplyResult) × (result ≡ ok r) × (IsConsistent env w'.db × AllKnown es w'.db)
  apply_remote_event_batch-IsConsistent es w good =
      Ensures-run (apply_remote_event_batch-AllKnown env laws es) quiet w good

  -- Where no statement fails and the serialiser reads back what it wrote, a full resync ends with a
  -- result and leaves a consistent database, whatever the database held before; every tail event
  -- that it replays is then marked as applied or waits as deferred; and the flag that asks for a
  -- full resync reads true exactly when the result counts deferred events.
  pub full_resync-IsConsistent :
      (checkpoints : List ItemSnapshot) (tail : List ItemEvent) (w : World J)
      → let (result, w') = full_resync env checkpoints tail w in
        (r : FullResyncResult) × (result ≡ ok r)
        × ((IsConsistent env w'.db × AllKnown (replayed checkpoints tail) w'.db)
            × FlagReads (ltb 0 r.tail_events_deferred) w'.db)
  full_resync-IsConsistent checkpoints tail w =
      Ensures-run (full_resync-AllKnown env laws checkpoints tail) quiet w tt
