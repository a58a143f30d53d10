-- ===== src/Sync/Replay/Revisions.antt =====
-- The revisions that `apply_remote_snapshots` of purr-sync/src/replay.rs stores.
use clipkitty.Base.{
  ℕ, ◌≡◌, refl, ap, ◌∙◌, sym, max, Bool, true, false, String, Option, none, some, List, [], ◌∷◌,
  arith, str_eq, eq_iff, ltb, if◌then◌else◌, ◌+◌,
}
use clipkitty.Base.Table.{find, upsert, find-upsert}
use clipkitty.Sync.Event.{IsSerde, ItemSnapshot, ok, snapshot_from_stored}
use clipkitty.Sync.Db.{Db, Env, World, SnapshotRow}
use clipkitty.Sync.Monad.{
  Ensures, Keeps-pure, Ensures-pure, Ensures-read, Ensures-write, Ensures-bind, Ensures-then,
  Ensures-run, Ensures-weaken, IsQuiet, pure,
}
use clipkitty.Sync.Store.{
  snapshot_key, optional_snapshot, snapshot_of_row, row_of_snapshot, fetch_snapshot,
  upsert_snapshot, upsert_projection, row_of_state,
}
use clipkitty.Sync.Replay.{
  should_apply, store_snapshot, apply_remote_snapshot, apply_snapshots_from, apply_remote_snapshots,
  projection_state_for_aggregate,
}
use clipkitty.Sync.Replay.Consistent.{
  IsConsistent, IsPending, IsReadable-of_IsPending, IsReadable-of_IsConsistent, snapshot-IsPending,
  row_of_projection, projection-IsConsistent,
}
use clipkitty.Sync.Replay.Keeps.{fetch_projection-Keeps, optional_snapshot-Readable}

abbrev pub revision_in : {J : Type 0} → Option (SnapshotRow J) → ℕ
revision_in none = 0
revision_in (some r) = r.snapshot_revision

-- The revision of an item's stored snapshot, and 0 where there is none.
abbrev pub stored_revision : {J : Type 0} → String → Db J → ℕ
stored_revision i db = revision_in (find snapshot_key i db.snapshots)

-- The newest of a revision and those that the snapshots have for an item.
abbrev pub newer : String → ℕ → ItemSnapshot → ℕ
newer i n s = if str_eq s.item_id i then max n s.snapshot_revision else n

abbrev pub newest : String → ℕ → List ItemSnapshot → ℕ
newest i n [] = n
newest i n (s ∷ ss) = newest i (newer i n s) ss

-- A snapshot is applied where it is newer than the row.
abbrev is_newer : {J : Type 0} → ItemSnapshot → Option (SnapshotRow J) → Bool
is_newer s none = true
is_newer s (some r) = ltb r.snapshot_revision s.snapshot_revision

module _ {J : Type 0} (env : Env J) where
  should_apply-is_newer :
      (s : ItemSnapshot) (row : Option (SnapshotRow J)) (existing : Option ItemSnapshot)
      → optional_snapshot env row ≡ ok existing
      → should_apply s existing ≡ is_newer s row
  unfolding optional_snapshot snapshot_of_row snapshot_from_stored should_apply
  should_apply-is_newer s row existing e = ground arith

  newer-of_skipped :
      (i : String) (s : ItemSnapshot) (db : Db J)
      → is_newer s (find snapshot_key s.item_id db.snapshots) ≡ false
      → stored_revision i db ≡ newer i (stored_revision i db) s
  newer-of_skipped i s db e =
      ground (arith, eq_iff s.item_id i, ap (λ k. find snapshot_key k db.snapshots))

  newer-of_stored :
      (i : String) (s : ItemSnapshot) (db : Db J)
      → is_newer s (find snapshot_key s.item_id db.snapshots) ≡ true
      → stored_revision i
          (record db { snapshots = upsert snapshot_key (row_of_snapshot env s) db.snapshots })
        ≡ newer i (stored_revision i db) s
  unfolding row_of_snapshot
  newer-of_stored i s db e = ground (
    arith,
    eq_iff s.item_id i,
    ap (λ k. find snapshot_key k db.snapshots),
    find-upsert snapshot_key (row_of_snapshot env s) db.snapshots i,
  )

module _ {J : Type 0} (env : Env J) (laws : IsSerde env.serde) (i : String) where
  -- Consistent, with a revision stored for the item.
  abbrev At : ℕ → Db J → Type 0
  At n db = IsConsistent env db × (stored_revision i db ≡ n)

  abbrev Found : ItemSnapshot → ℕ → Option ItemSnapshot → Db J → Type 0
  Found s n existing db =
      At n db × (should_apply s existing ≡ is_newer s (find snapshot_key s.item_id db.snapshots))

  -- Between the two writes of a snapshot.
  abbrev Between : ItemSnapshot → ℕ → Db J → Type 0
  Between s n db = IsPending env s.item_id s.aggregate db × (stored_revision i db ≡ n)

  fetch_snapshot-Found :
      (s : ItemSnapshot) (n : ℕ) → Ensures env (At n) (fetch_snapshot env s.item_id) (Found s n)
  unfolding fetch_snapshot
  fetch_snapshot-Found s n =
      Ensures-read env _
        (λ db h.
          optional_snapshot-Readable env (At n) (λ db' h'. IsReadable-of_IsConsistent env db' h'.0)
            _ (IsReadable-of_IsConsistent env db h.0 s.item_id))
        (λ db a h e. (h, should_apply-is_newer env s _ a e))

  store_snapshot-At :
      (s : ItemSnapshot) (n : ℕ)
      → Ensures env
          (λ db. At n db × (is_newer s (find snapshot_key s.item_id db.snapshots) ≡ true))
          (store_snapshot env s)
          (λ _. At (newer i n s))
  unfolding store_snapshot upsert_snapshot upsert_projection
  store_snapshot-At s n =
      Ensures-then (Between s (newer i n s)) _ _
        (Ensures-write env _ (λ t db ((h, r), new). (
          snapshot-IsPending env laws s db h,
          newer-of_stored env i s db new ∙ ap (λ m. newer i m s) r,
        )))
        (Ensures-bind (λ _. Between s (newer i n s)) _ _
          (fetch_projection-Keeps env (Between s (newer i n s))
            (λ db h. IsReadable-of_IsPending env s.item_id s.aggregate db h.0) s.item_id)
          (λ entry.
            let (ei, ev, et) = row_of_projection env s.item_id entry s.aggregate in
            Ensures-then (At (newer i n s)) _ _
              (Ensures-write env _ (λ t db (h, r). (
                projection-IsConsistent env s.item_id s.aggregate
                    (row_of_state s.item_id (projection_state_for_aggregate entry s.aggregate)) db
                    ei ev et h,
                r,
              )))
              (Keeps-pure true)))

  choose-At :
      (s : ItemSnapshot) (n : ℕ) (b : Bool)
      → Ensures env
          (λ db. At n db × (b ≡ is_newer s (find snapshot_key s.item_id db.snapshots)))
          (if b then store_snapshot env s else pure false)
          (λ _. At (newer i n s))
  choose-At s n true =
      Ensures-weaken (λ db (h, e). (h, sym e)) (λ a db h. h) (store_snapshot-At s n)
  choose-At s n false =
      Ensures-pure false
        (λ db ((h, r), e). (h, newer-of_skipped env i s db (sym e) ∙ ap (λ m. newer i m s) r))

  apply_remote_snapshot-At :
      (s : ItemSnapshot) (n : ℕ)
      → Ensures env (At n) (apply_remote_snapshot env s) (λ _. At (newer i n s))
  unfolding apply_remote_snapshot
  apply_remote_snapshot-At s n =
      Ensures-bind (Found s n) _ _ (fetch_snapshot-Found s n)
        (λ existing. choose-At s n (should_apply s existing))

  apply_snapshots_from-At :
      (c n : ℕ) (ss : List ItemSnapshot)
      → Ensures env (At n) (apply_snapshots_from env c ss) (λ _. At (newest i n ss))
  unfolding apply_snapshots_from
  apply_snapshots_from-At c n [] = Keeps-pure c
  apply_snapshots_from-At c n (s ∷ ss) =
      Ensures-bind (λ _. At (newer i n s)) _ _ (apply_remote_snapshot-At s n)
        (λ done. apply_snapshots_from-At (if done then c + 1 else c) (newer i n s) ss)

  -- Where no statement fails and the serialiser reads back what it wrote, remote snapshots on a
  -- consistent database are all gone through, the database stays consistent, and the stored revision
  -- of an item is then the newest of its old one and of those that the snapshots have for it.
  pub apply_remote_snapshots-newest :
      (ss : List ItemSnapshot) (w : World J)
      → IsQuiet env
      → IsConsistent env w.db
      → let (result, w') = apply_remote_snapshots env ss w in
        (n : ℕ) × (result ≡ ok n)
        × (IsConsistent env w'.db
            × (stored_revision i w'.db ≡ newest i (stored_revision i w.db) ss))
  unfolding apply_remote_snapshots
  apply_remote_snapshots-newest ss w quiet good =
      Ensures-run (apply_snapshots_from-At 0 (stored_revision i w.db) ss) quiet w (good, refl)
