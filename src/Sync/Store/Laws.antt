-- ===== src/Sync/Store/Laws.antt =====
-- What the store reads back.
use clipkitty.Base.{◌≡◌, some, arith}
use clipkitty.Sync.Types.{ItemAggregate}
use clipkitty.Sync.Event.{ItemSnapshot, IsSerde, ok}
use clipkitty.Sync.Db.{SnapshotRow, Env}
use clipkitty.Sync.Store.Snapshots.{optional_snapshot, row_of_snapshot}

-- The snapshot that a row holds, given its aggregate.
abbrev pub snapshot_with : {J : Type 0} → SnapshotRow J → ItemAggregate → ItemSnapshot
snapshot_with r a = record {
  item_id = r.item_id;
  snapshot_revision = r.snapshot_revision;
  schema_version = r.schema_version;
  covers_through_event = r.covers_through_event;
  aggregate = a;
  uploaded = r.uploaded;
  uploaded_at = r.uploaded_at;
}

module _ {J : Type 0} (env : Env J) where
  pub optional_snapshot-of_some :
      (r : SnapshotRow J) (a : ItemAggregate)
      → env.serde.decode_aggregate r.aggregate_state ≡ some a
      → optional_snapshot env (some r) ≡ ok (some (snapshot_with r a))
  unfolding optional_snapshot
  optional_snapshot-of_some r a e = ground arith

  -- Where the serialiser reads back what it wrote, a snapshot that is stored is read back as it was.
  pub optional_snapshot-row_of_snapshot :
      (s : ItemSnapshot)
      → IsSerde env.serde
      → optional_snapshot env (some (row_of_snapshot env s)) ≡ ok (some s)
  unfolding optional_snapshot row_of_snapshot
  optional_snapshot-row_of_snapshot s laws = ground (arith, laws.aggregate_round_trip s.aggregate)
