-- ===== src/Sync/Replay/Keeps.antt =====
-- The reads and writes of purr-sync/src/replay.rs against a consistent database.
use clipkitty.Base.{◌≡◌, refl, String, Option, none, some}
use clipkitty.Sync.Event.{ok, IsSerde, ItemEvent, ItemSnapshot}
use clipkitty.Sync.Db.{Db, SnapshotRow, Env}
use clipkitty.Sync.Monad.{
  Ensures, Keeps, Keeps-pure, Ensures-read, Ensures-write, Ensures-now, Ensures-bind,
}
use clipkitty.Sync.Store.{
  optional_snapshot, append_remote_event, fetch_snapshot, upsert_snapshot, fetch_projection,
  is_event_applied,
}
use clipkitty.Sync.Store.Laws.{snapshot_with, optional_snapshot-of_some}
use clipkitty.Sync.Replay.{load_aggregate, project}
use clipkitty.Sync.Replay.Consistent.{
  IsConsistent, IsReadable, Readable, IsReadable-of_IsConsistent, IsPending, snapshot-IsPending,
}

module _ {J : Type 0} (env : Env J) (P : Db J → Type 0)
    (readable : (db : Db J) → P db → IsReadable env db) where
  pub optional_snapshot-Readable :
      (s : Option (SnapshotRow J))
      → Readable env s
      → (o : Option ItemSnapshot) × (optional_snapshot env s ≡ ok o)
  unfolding optional_snapshot
  optional_snapshot-Readable none h = (none, refl)
  optional_snapshot-Readable (some s) (a, e) =
      (some (snapshot_with s a), optional_snapshot-of_some env s a e)

  pub fetch_snapshot-Keeps : (i : String) → Keeps env P (fetch_snapshot env i)
  unfolding fetch_snapshot
  fetch_snapshot-Keeps i =
      Ensures-read env _ (λ db h. optional_snapshot-Readable _ (readable db h i)) (λ db a h e. h)

  pub fetch_projection-Keeps : (i : String) → Keeps env P (fetch_projection env i)
  unfolding fetch_projection
  fetch_projection-Keeps i = Ensures-read env _ (λ db h. (_, refl)) (λ db a h e. h)

  pub is_event_applied-Keeps : (i : String) → Keeps env P (is_event_applied env i)
  unfolding is_event_applied
  is_event_applied-Keeps i = Ensures-read env _ (λ db h. (_, refl)) (λ db a h e. h)

  pub load_aggregate-Keeps : (i : String) → Keeps env P (load_aggregate env i)
  unfolding load_aggregate
  load_aggregate-Keeps i =
      Ensures-bind (λ _. P) _ _ (fetch_projection-Keeps i)
        (elim [
          | none ↦ Ensures-bind (λ _. P) _ _ (fetch_snapshot-Keeps i) (λ s. Keeps-pure _)
          | some p ↦ Ensures-bind (λ _. P) _ _ (fetch_snapshot-Keeps i) (λ s. Keeps-pure _)
        ])

  pub project-Keeps : (e : ItemEvent) → Keeps env P (project env e)
  unfolding project
  project-Keeps e =
      Ensures-bind (λ _. P) _ _ (load_aggregate-Keeps e.item_id)
        (λ a. Ensures-bind (λ _. P) _ _ (Ensures-now env) (λ t. Keeps-pure _))

module _ {J : Type 0} (env : Env J) (laws : IsSerde env.serde) where
  abbrev pub Good : Db J → Type 0
  Good = IsConsistent env

  pub IsReadable-of_Good : (db : Db J) → Good db → IsReadable env db
  IsReadable-of_Good = IsReadable-of_IsConsistent env

  pub append-Keeps : (e : ItemEvent) → Keeps env Good (append_remote_event env e)
  unfolding append_remote_event
  append-Keeps e = Ensures-write env _ (λ t db h. h)

  pub upsert_snapshot-IsPending :
      (s : ItemSnapshot)
      → Ensures env Good (upsert_snapshot env s) (λ _. IsPending env s.item_id s.aggregate)
  unfolding upsert_snapshot
  upsert_snapshot-IsPending s = Ensures-write env _ (λ t db h. snapshot-IsPending env laws s db h)
