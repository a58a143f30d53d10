-- ===== src/Sync/Replay/Consistent.antt =====
-- What it means that sync_projection agrees with sync_snapshots, for purr-sync/src/replay.rs: an
-- item with a projection has a snapshot that reads back, with the same versions, and is a tombstone
-- in both or in neither.
use clipkitty.Base.{
  ◌≡◌, sym, ◌∙◌, inl, inr, Bool, true, false, String, Option, none, some, arith, str_eq, eq_iff,
  Bool-cases,
}
use mathlib.Core.Path.{subst}
use clipkitty.Base.Table.{find, upsert, find-upsert_eq, find-upsert_ne}
use text.Mathlib.TextPositions.{eq_refl}
use clipkitty.Sync.Types.{ItemAggregate, live, tombstoned, VersionVector}
use clipkitty.Sync.Projector.Domains.{versions_of}
use clipkitty.Sync.Event.{IsSerde, ItemSnapshot}
use clipkitty.Sync.Db.{Db, Env, ProjectionRow, SnapshotRow}
use clipkitty.Sync.Store.{
  snapshot_key, projection_key, row_of_snapshot, row_of_state, ProjectionState,
  pending_materialization, materialized, ProjectionEntry,
}
use clipkitty.Sync.Replay.{projection_state_for_aggregate}

abbrev pub is_tombstone : ItemAggregate → Bool
is_tombstone (live _) = false
is_tombstone (tombstoned _) = true

abbrev pub versions_of_state : ProjectionState → VersionVector
versions_of_state (pending_materialization v) = v
versions_of_state (materialized v) = v
versions_of_state (ProjectionState.tombstoned v) = v

module _ {J : Type 0} (env : Env J) where
  -- A stored snapshot that reads back as the aggregate.
  abbrev pub Holds : ItemAggregate → Option (SnapshotRow J) → Type 0
  Holds a none = ⊥
  Holds a (some s) = env.serde.decode_aggregate s.aggregate_state ≡ some a

  abbrev pub Readable : Option (SnapshotRow J) → Type 0
  Readable none = Unit
  Readable (some s) = (a : ItemAggregate) × (env.serde.decode_aggregate s.aggregate_state ≡ some a)

  abbrev pub IsReadable : Db J → Type 0
  IsReadable db = (i : String) → Readable (find snapshot_key i db.snapshots)

  abbrev pub Agrees : Option ProjectionRow → Option (SnapshotRow J) → Type 0
  Agrees none s = Readable s
  Agrees (some p) s =
      (a : ItemAggregate) × Holds a s
      × (p.versions ≡ versions_of a)
      × (p.is_tombstoned ≡ is_tombstone a)

  abbrev pub IsConsistent : Db J → Type 0
  IsConsistent db =
      (i : String) → Agrees (find projection_key i db.projection) (find snapshot_key i db.snapshots)

  -- Between the two writes of an item, its projection is behind.
  abbrev pub IsPending : String → ItemAggregate → Db J → Type 0
  IsPending i a db =
      Holds a (find snapshot_key i db.snapshots)
      × ((j : String)
          → str_eq i j ≡ false
          → Agrees (find projection_key j db.projection) (find snapshot_key j db.snapshots))

  pub snapshot-IsPending :
      (laws : IsSerde env.serde) (s : ItemSnapshot) (db : Db J)
      → IsConsistent db
      → IsPending s.item_id s.aggregate
          (record db { snapshots = upsert snapshot_key (row_of_snapshot env s) db.snapshots })
  unfolding row_of_snapshot
  snapshot-IsPending laws s db h = (
    rw (find-upsert_eq snapshot_key (row_of_snapshot env s) db.snapshots s.item_id (eq_refl _))
        (laws.aggregate_round_trip s.aggregate),
    λ j ne. rw (find-upsert_ne snapshot_key (row_of_snapshot env s) db.snapshots j ne) (h j),
  )

  pub row_of_projection :
      (i : String) (entry : Option ProjectionEntry) (a : ItemAggregate)
      → let r = row_of_state i (projection_state_for_aggregate entry a) in
        (r.item_id ≡ i) × (r.versions ≡ versions_of a) × (r.is_tombstoned ≡ is_tombstone a)
  unfolding row_of_state projection_state_for_aggregate
  row_of_projection i entry a = ground arith

  pub projection-IsConsistent :
      (i : String) (a : ItemAggregate) (r : ProjectionRow) (db : Db J)
      → r.item_id ≡ i
      → r.versions ≡ versions_of a
      → r.is_tombstoned ≡ is_tombstone a
      → IsPending i a db
      → IsConsistent (record db { projection = upsert projection_key r db.projection })
  projection-IsConsistent i a r db ei ev et (hs, hj) j = elim (Bool-cases (str_eq r.item_id j)) [
    | inl e ↦ rw (find-upsert_eq projection_key r db.projection j e) (
      a,
      subst (λ k. Holds a (find snapshot_key k db.snapshots)) (sym ei ∙ (eq_iff r.item_id j).0 e)
          hs,
      ev,
      et,
    )
    | inr n ↦
        rw (find-upsert_ne projection_key r db.projection j n)
          (hj j (subst (λ k. str_eq k j ≡ false) ei n))
  ]

  Readable-of_Holds : (a : ItemAggregate) (s : Option (SnapshotRow J)) → Holds a s → Readable s
  Readable-of_Holds a none h = absurd h
  Readable-of_Holds a (some s) h = (a, h)

  Readable-of_Agrees :
      (p : Option ProjectionRow) (s : Option (SnapshotRow J)) → Agrees p s → Readable s
  Readable-of_Agrees none s h = h
  Readable-of_Agrees (some p) s (a, h, _, _) = Readable-of_Holds a s h

  pub IsReadable-of_IsConsistent : (db : Db J) → IsConsistent db → IsReadable db
  IsReadable-of_IsConsistent db h i =
      Readable-of_Agrees (find projection_key i db.projection) (find snapshot_key i db.snapshots)
        (h i)

  pub IsReadable-of_IsPending :
      (i : String) (a : ItemAggregate) (db : Db J) → IsPending i a db → IsReadable db
  IsReadable-of_IsPending i a db (hi, hj) j = elim (Bool-cases (str_eq i j)) [
    | inl e ↦
        Readable-of_Holds a (find snapshot_key j db.snapshots)
          (subst (λ k. Holds a (find snapshot_key k db.snapshots)) ((eq_iff i j).0 e) hi)
    | inr n ↦
        Readable-of_Agrees (find projection_key j db.projection) (find snapshot_key j db.snapshots)
          (hj j n)
  ]
