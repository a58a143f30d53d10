-- ===== src/Sync/Compactor/Purge.antt =====
-- The deletions of `purge_retained_events` in purr-sync/src/compactor.rs.
use clipkitty.Base.{
  ℕ, ◌*◌, sub_ℕ, ltb_ℤ, ◌&&◌, some, ◌≡◌, Bool, false, String, List, [], ◌∷◌, map, All, none, str_eq,
  keep,
}
use clipkitty.Base.Table.{contains, find}
use clipkitty.Sync.Db.{Db, Env, EventRow}
use clipkitty.Sync.Store.{snapshot_key}

module _ {J : Type 0} where
  -- No row has the text as its key.
  abbrev IsFresh : String → List (EventRow J) → Type 0
  IsFresh k rs = All (λ r. str_eq r.event_id k ≡ false) rs

  -- The primary key of the table: no two rows have the same.
  abbrev pub HasUniqueIds : List (EventRow J) → Type 0
  HasUniqueIds [] = Unit
  HasUniqueIds (r ∷ rs) = IsFresh r.event_id rs × HasUniqueIds rs

  abbrev ids_of : (EventRow J → Bool) → List (EventRow J) → List String
  ids_of p rs = map (λ r. r.event_id) (keep p rs)

  -- A list of keys that tells of each row whether it passes the test.
  abbrev Tells : List String → (EventRow J → Bool) → List (EventRow J) → Type 0
  Tells ks p rs = All (λ r. contains ks r.event_id ≡ p r) rs

module _ {J : Type 0} (env : Env J) where
  -- The events that a purge deletes: those compacted, recorded more than thirty days before the time,
  -- of an item whose snapshot was uploaded.
  abbrev pub is_purged : ℕ → Db J → EventRow J → Bool
  is_purged time db r =
      (r.compacted && ltb_ℤ r.recorded_at (sub_ℕ time (30 * 24 * 3600)))
      && elim (find snapshot_key r.item_id db.snapshots) [ none ↦ false | some s ↦ s.uploaded ]
