-- ===== src/Sync/Replay/ResyncKeeps.antt =====
-- The full resync of purr-sync/src/replay.rs against a consistent database.
use clipkitty.Base.{ltb, ◌≡◌, refl, Bool, String, some, List, [], ◌∷◌, ℤ}
use clipkitty.Base.Table.{find, upsert, find-upsert_eq}
use clipkitty.Sync.Types.{ItemAggregate, live, tombstoned}
use clipkitty.Sync.Projector.Domains.{versions_of}
use clipkitty.Sync.Event.{IsSerde, ItemEvent, ItemSnapshot}
use clipkitty.Sync.Db.{Db, Env, FlagRow}
use clipkitty.Sync.Monad.{
  Keeps, Keeps-pure, Ensures, Ensures-pure, Ensures-write, Ensures-bind, Ensures-then,
}
use clipkitty.Sync.Store.{
  clear_sync_state, upsert_projection, set_dirty_flag, row_of_state, flag_key,
  flag_needs_full_resync,
}
use clipkitty.Sync.Replay.Consistent.{IsPending, is_tombstone, projection-IsConsistent}
use clipkitty.Sync.Replay.Keeps.{Good, upsert_snapshot-IsPending}
use clipkitty.Sync.Replay.BatchKeeps.{apply_remote_event_batch-AllKnown}
use clipkitty.Sync.Replay.Stable.{Sound, AllKnown}
use clipkitty.Sync.Replay.Tail.{events_after_checkpoints}
use clipkitty.Sync.Replay.Resync.{apply_checkpoints, checkpoint_projection, full_resync}

-- What the dirty flag of a full resync reads.
abbrev pub FlagReads : {J : Type 0} → Bool → Db J → Type 0
FlagReads b db =
    (r : FlagRow) × (find flag_key flag_needs_full_resync db.flags ≡ some r) × (r.flag_value ≡ b)

-- The tail events that a full resync replays.
abbrev pub replayed : List ItemSnapshot → List ItemEvent → List ItemEvent
replayed checkpoints tail = (events_after_checkpoints checkpoints tail).0

module _ {J : Type 0} (env : Env J) (laws : IsSerde env.serde) where
  abbrev Any : Db J → Type 0
  Any db = Unit

  clear-Good : Ensures env Any (clear_sync_state env) (λ _. Good env laws)
  unfolding clear_sync_state find
  clear-Good = Ensures-then Any _ _ (Ensures-write env _ (λ t db h. tt)) (
      Ensures-then (λ db. db.snapshots ≡ []) _ _ (Ensures-write env _ (λ t db h. refl))
        (Ensures-then (Good env laws) _ _ (Ensures-write env _ (λ t db h i. rw h tt)) (
          Ensures-then (Good env laws) _ _ (Ensures-write env _ (λ t db h. h)) (
            Ensures-then (Good env laws) _ _ (Ensures-write env _ (λ t db h. h)) (
              Ensures-then (Good env laws) _ _ (Ensures-write env _ (λ t db h. h))
                (Ensures-write env _ (λ t db h. h)))))))

  row_of_checkpoint :
      (i : String) (a : ItemAggregate)
      → let r = row_of_state i (checkpoint_projection a) in
        (r.item_id ≡ i) × (r.versions ≡ versions_of a) × (r.is_tombstoned ≡ is_tombstone a)
  unfolding row_of_state
  row_of_checkpoint i (live l) = (refl, refl, refl)
  row_of_checkpoint i (tombstoned t) = (refl, refl, refl)

  upsert_checkpoint-Good :
      (i : String) (a : ItemAggregate)
      → Ensures env
          (IsPending env i a)
          (upsert_projection env i (checkpoint_projection a))
          (λ _. Good env laws)
  unfolding upsert_projection
  upsert_checkpoint-Good i a =
      let (ei, ev, et) = row_of_checkpoint i a in
      Ensures-write env _ (λ t db h.
        projection-IsConsistent env i a (row_of_state i (checkpoint_projection a)) db ei ev et h)

  apply_checkpoints-Keeps :
      (ss : List ItemSnapshot) → Keeps env (Good env laws) (apply_checkpoints env ss)
  unfolding apply_checkpoints
  apply_checkpoints-Keeps [] = Keeps-pure tt
  apply_checkpoints-Keeps (s ∷ ss) =
      Ensures-then (IsPending env s.item_id s.aggregate) _ _ (upsert_snapshot-IsPending env laws s)
        (Ensures-then (Good env laws) _ _ (upsert_checkpoint-Good s.item_id s.aggregate)
          (apply_checkpoints-Keeps ss))

  -- A full resync that succeeds leaves a consistent projection, whatever the database held, and a
  -- dirty flag that reads true exactly when its result counts deferred events, and every event that
  -- it replayed is known.
  pub full_resync-AllKnown :
      (checkpoints : List ItemSnapshot) (tail : List ItemEvent)
      → Ensures env Any (full_resync env checkpoints tail) (λ r db.
        Sound env (AllKnown (replayed checkpoints tail)) db
        × FlagReads (ltb 0 r.tail_events_deferred) db)
  unfolding full_resync set_dirty_flag
  full_resync-AllKnown checkpoints tail = Ensures-then (Good env laws) _ _ clear-Good (
      Ensures-then (Good env laws) _ _ (apply_checkpoints-Keeps checkpoints) (
        Ensures-bind (λ _. Sound env (AllKnown (replayed checkpoints tail))) _ _
          (apply_remote_event_batch-AllKnown env laws (replayed checkpoints tail))
          (λ r.
            Ensures-then
              (λ db.
                Sound env (AllKnown (replayed checkpoints tail)) db
                × FlagReads (ltb 0 r.events_deferred) db)
              _ _ (Ensures-write env _ (λ t db h. (h, flag_written db t (ltb 0 r.events_deferred))))
              (Ensures-pure _ (λ db h. h)))))
    where
      flag_written :
          (db : Db J) (t : ℤ) (b : Bool)
          → FlagReads b (record db {
            flags =
                upsert flag_key
                  (record { flag_name = flag_needs_full_resync; flag_value = b; updated_at = t })
                  db.flags;
          })
      flag_written db t b =
          let row : FlagRow = record {
            flag_name = flag_needs_full_resync;
            flag_value = b;
            updated_at = t;
          } in
          (row, find-upsert_eq flag_key row db.flags flag_needs_full_resync refl, refl)
