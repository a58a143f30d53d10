-- ===== src/Sync/Store/Snapshots.antt =====
-- Snapshots: table sync_snapshots of purr-sync/src/store.rs.
use clipkitty.Base.{
  ℤ, ltb_ℤ, Bool, true, false, not, ◌&&◌, String, Option, none, some, List, [], ◌∷◌, map, str_eq,
  keep,
}
use clipkitty.Base.Table.{find, upsert, delete, update_where}
use clipkitty.Sync.Types.{CheckpointState, absent, local_only, uploaded}
use clipkitty.Sync.Event.{ItemSnapshot, Result, ok, err, snapshot_from_stored}
use clipkitty.Sync.Db.{SnapshotRow, EventRow, Db, Env}
use clipkitty.Sync.Monad.{Sync, read, write}

abbrev pub snapshot_key : {J : Type 0} → SnapshotRow J → String
snapshot_key r = r.item_id

-- `collect` into a `Result`: the first error wins.
unfoldable pub collect : {A : Type 0} → List (Result A) → Result (List A)
collect [] = ok []
collect (err e ∷ rs) = err e
collect (ok a ∷ rs) = elim (collect rs) [ ok xs ↦ ok (a ∷ xs) | err e ↦ err e ]

-- The arms of the match in `checkpoint_state`.
unfoldable pub checkpoint_of : Option String → Bool → Option ℤ → CheckpointState
checkpoint_of (some covers) true (some at) = uploaded covers at
checkpoint_of (some covers) true none = absent
checkpoint_of (some covers) false at = local_only covers
checkpoint_of none up at = absent

module _ {J : Type 0} (env : Env J) where
  unfoldable pub row_of_snapshot : ItemSnapshot → SnapshotRow J
  row_of_snapshot s = record {
    item_id = s.item_id;
    snapshot_revision = s.snapshot_revision;
    schema_version = s.schema_version;
    covers_through_event = s.covers_through_event;
    aggregate_state = env.serde.encode_aggregate s.aggregate;
    uploaded = s.uploaded;
    uploaded_at = s.uploaded_at;
  }

  unfoldable pub snapshot_of_row : SnapshotRow J → Result ItemSnapshot
  unfolding snapshot_from_stored
  snapshot_of_row r =
      snapshot_from_stored env.serde r.item_id r.snapshot_revision r.schema_version
        r.covers_through_event r.aggregate_state r.uploaded r.uploaded_at

  unfoldable pub upsert_snapshot : ItemSnapshot → Sync J (Unit {0})
  unfolding row_of_snapshot
  upsert_snapshot s =
      write env
        (λ now db. record db { snapshots = upsert snapshot_key (row_of_snapshot s) db.snapshots })

  unfoldable pub optional_snapshot : Option (SnapshotRow J) → Result (Option ItemSnapshot)
  unfolding snapshot_of_row
  optional_snapshot none = ok none
  optional_snapshot (some r) = elim (snapshot_of_row r) [ ok s ↦ ok (some s) | err e ↦ err e ]

  unfoldable pub fetch_snapshot : String → Sync J (Option ItemSnapshot)
  unfolding optional_snapshot
  fetch_snapshot item_id =
      read env (λ db. optional_snapshot (find snapshot_key item_id db.snapshots))

  unfoldable pub fetch_all_snapshots : Sync J (List ItemSnapshot)
  unfolding snapshot_of_row collect
  fetch_all_snapshots = read env (λ db. collect (map snapshot_of_row db.snapshots))

  unfoldable pub delete_snapshot : String → Sync J (Unit {0})
  delete_snapshot item_id =
      write env (λ now db. record db { snapshots = delete snapshot_key item_id db.snapshots })

  unfoldable pub mark_snapshot_uploaded : String → Sync J (Unit {0})
  mark_snapshot_uploaded item_id = write env (λ now db. record db {
    snapshots =
        update_where (λ r. str_eq r.item_id item_id)
          (λ r. record r { uploaded = true; uploaded_at = some now }) db.snapshots;
  })

  unfoldable pub fetch_pending_upload_snapshots : Sync J (List ItemSnapshot)
  unfolding snapshot_of_row collect
  fetch_pending_upload_snapshots =
      read env (λ db. collect (map snapshot_of_row (keep (λ r. not r.uploaded) db.snapshots)))

  unfoldable pub is_snapshot_uploaded : String → Sync J Bool
  is_snapshot_uploaded item_id = read env (λ db.
      ok (elim (find snapshot_key item_id db.snapshots) [ none ↦ false | some r ↦ r.uploaded ]))

  unfoldable pub checkpoint_state : String → Sync J CheckpointState
  unfolding checkpoint_of
  checkpoint_state item_id = read env (λ db. ok (elim (find snapshot_key item_id db.snapshots) [
    | none ↦ absent
    | some r ↦ checkpoint_of r.covers_through_event r.uploaded r.uploaded_at
  ]))

  -- The join is on the primary key of sync_snapshots: an event meets one snapshot at most.
  unfoldable pub is_checkpoint_safe : ℤ → Db J → EventRow J → Bool
  is_checkpoint_safe older_than db e =
      (e.compacted && ltb_ℤ e.recorded_at older_than)
      && elim (find snapshot_key e.item_id db.snapshots) [ none ↦ false | some s ↦ s.uploaded ]

  unfoldable pub fetch_checkpoint_safe_purgeable_events : ℤ → Sync J (List String)
  unfolding is_checkpoint_safe
  fetch_checkpoint_safe_purgeable_events older_than =
      read env
        (λ db. ok (map (λ e. e.event_id) (keep (is_checkpoint_safe older_than db) db.events)))
