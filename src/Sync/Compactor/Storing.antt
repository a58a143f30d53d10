-- ===== src/Sync/Compactor/Storing.antt =====
-- What `compact_item` of purr-sync/src/compactor.rs stores.
use clipkitty.Base.{
  ℕ, suc, ◌+◌, true, false, ◌≡◌, refl, sym, ap, ◌∙◌, String, Option, none, some, List, [], ◌∷◌,
  ◌++◌, map, arith, last?, length, saturating_add, if◌then◌else◌,
}
use clipkitty.Base.Table.{find, upsert, contains, update_where}
use clipkitty.Sync.Types.{ItemAggregate, applied, ignored, deferred, forked, sync_schema_version}
use clipkitty.Sync.Projector.{apply_event}
use clipkitty.Sync.Event.{ItemEvent, ItemSnapshot, Result, ok, compacted}
use clipkitty.Sync.Db.{Db, Env, World, EventRow}
use clipkitty.Sync.Monad.{
  IsQuiet, pure, write, exec, statement, continue, ◌>>=◌, ◌>>◌, >>=-of_run, read-quiet,
}
use clipkitty.Sync.Store.{
  fetch_uncompacted_events, fetch_snapshot, optional_snapshot, snapshot_key, row_of_snapshot,
  upsert_snapshot, mark_events_compacted,
}
use clipkitty.Sync.Replay.{aggregate_of, revision_of}
use clipkitty.Sync.Compactor.{
  CompactionOutcome, compacted_to, not_needed, no_events, Fold, fold_result, fold_events,
  store_fold, compact_item,
}
use clipkitty.Sync.Compactor.Folding.{folded, fold_events-eq-folded, uncompacted, compact_events}

++-assoc : (xs ys zs : List String) → (xs ++ ys) ++ zs ≡ xs ++ (ys ++ zs)
++-assoc [] ys zs = refl
++-assoc (x ∷ xs) ys zs = ap (λ l. x ∷ l) (++-assoc xs ys zs)

++-nil : (xs : List String) → xs ++ [] ≡ xs
++-nil [] = refl
++-nil (x ∷ xs) = ap (λ l. x ∷ l) (++-nil xs)

-- The events with one of the ids are compacted.
abbrev pub marked : {J : Type 0} → List String → List (EventRow J) → List (EventRow J)
marked ids = map (λ r. if contains ids r.event_id then record r { compacted = true } else r)

update_where-marked :
    {J : Type 0} (ids : List String) (rows : List (EventRow J))
    → update_where (λ r. contains ids r.event_id) (λ r. record r { compacted = true }) rows
      ≡ marked ids rows
unfolding update_where
update_where-marked ids [] = refl
update_where-marked ids (r ∷ rs) = ground (arith, update_where-marked ids rs)

module _ {J : Type 0} (env : Env J) where
  -- The aggregate after the events in turn, where the clock is read from a step on. Only an event that
  -- applies changes it.
  abbrev pub final_of : ℕ → Option ItemAggregate → List ItemEvent → Option ItemAggregate
  final_of n a [] = a
  final_of n a (e ∷ es) = elim (apply_event env.content_hash (env.clock n) a e.payload) [
    | applied delta ↦ final_of (suc n) (some delta.new_aggregate) es
    | ignored _ ↦ final_of (suc n) a es
    | deferred _ ↦ final_of (suc n) a es
    | forked _ ↦ final_of (suc n) a es
  ]

  -- The ids of the events among them that apply or are ignored.
  abbrev pub counted_ids : ℕ → Option ItemAggregate → List ItemEvent → List String
  counted_ids n a [] = []
  counted_ids n a (e ∷ es) = elim (apply_event env.content_hash (env.clock n) a e.payload) [
    | applied delta ↦ e.event_id ∷ counted_ids (suc n) (some delta.new_aggregate) es
    | ignored _ ↦ e.event_id ∷ counted_ids (suc n) a es
    | deferred _ ↦ counted_ids (suc n) a es
    | forked _ ↦ counted_ids (suc n) a es
  ]

  abbrev fold_of : Option ItemAggregate → List String → Fold
  fold_of a ids = record { aggregate = a; applied_event_ids = ids }

  folded-final_of :
      (n : ℕ) (a : Option ItemAggregate) (ids : List String) (es : List ItemEvent)
      → folded env n (fold_of a ids) es ≡ fold_of (final_of n a es) (ids ++ counted_ids n a es)
  unfolding folded fold_result
  folded-final_of n a ids [] = ap (fold_of a) (sym (++-nil ids))
  folded-final_of n a ids (e ∷ es) =
      elim (apply_event env.content_hash (env.clock n) a e.payload)
        as (λ x.
          folded env (suc n) (fold_result e.event_id x (fold_of a ids)) es
          ≡ fold_of
              (elim x [
                | applied delta ↦ final_of (suc n) (some delta.new_aggregate) es
                | ignored _ ↦ final_of (suc n) a es
                | deferred _ ↦ final_of (suc n) a es
                | forked _ ↦ final_of (suc n) a es
              ])
              (ids ++ elim x [
                | applied delta ↦ e.event_id ∷ counted_ids (suc n) (some delta.new_aggregate) es
                | ignored _ ↦ e.event_id ∷ counted_ids (suc n) a es
                | deferred _ ↦ counted_ids (suc n) a es
                | forked _ ↦ counted_ids (suc n) a es
              ])) [
                | applied delta ↦
                    folded-final_of (suc n) (some delta.new_aggregate) (ids ++ e.event_id ∷ []) es
                    ∙ ap (fold_of _) (++-assoc ids (e.event_id ∷ []) _)
                | ignored _ ↦
                    folded-final_of (suc n) a (ids ++ e.event_id ∷ []) es
                    ∙ ap (fold_of _) (++-assoc ids (e.event_id ∷ []) _)
                | deferred _ ↦ folded-final_of (suc n) a ids es
                | forked _ ↦ folded-final_of (suc n) a ids es
              ]

  -- Without an aggregate, or without an event that counts, nothing is done. Otherwise the next
  -- revision of the snapshot is stored, which names the last event that counts, the events that count
  -- are compacted, and nothing else changes.
  abbrev pub Stores :
      String
      → Option ItemSnapshot
      → Option ItemAggregate
      → List String
      → Db J
      → Result CompactionOutcome
      → Db J
      → Type 0
  Stores i existing (some a) (k ∷ ks) db result db' =
      (last : String) × (last? (k ∷ ks) ≡ some last)
      × (let s : ItemSnapshot = record {
        item_id = i;
        snapshot_revision = saturating_add (revision_of existing) 1;
        schema_version = sync_schema_version;
        covers_through_event = some last;
        aggregate = a;
        uploaded = false;
        uploaded_at = none;
      } in
          (result ≡ ok (compacted_to s (length (k ∷ ks))))
          × (db' ≡ record db {
            snapshots = upsert snapshot_key (row_of_snapshot env s) db.snapshots;
            events = marked (k ∷ ks) db.events;
          }))
  Stores i existing _ _ db result db' = (result ≡ ok not_needed) × (db' ≡ db)

  last?-some : (k : String) (ks : List String) → (last : String) × (last? (k ∷ ks) ≡ some last)
  last?-some k [] = (k, refl)
  last?-some k (x ∷ xs) = last?-some x xs

  store_fold-Stores :
      (i : String) (existing : Option ItemSnapshot) (a : Option ItemAggregate) (ids : List String)
      (w : World J)
      → IsQuiet env
      → let (result, w') = store_fold env i existing (fold_of a ids) w in
        Stores i existing a ids w.db result w'.db
  unfolding store_fold compacted pure upsert_snapshot mark_events_compacted write exec statement
      ◌>>=◌ ◌>>◌ continue
  store_fold-Stores i existing none ids w quiet = (refl, refl)
  store_fold-Stores i existing (some a) [] w quiet = (refl, refl)
  store_fold-Stores i existing (some a) (k ∷ ks) w quiet =
      let (last, named) = last?-some k ks in
      rw (named, quiet w.ticks, quiet (suc w.ticks), update_where-marked (k ∷ ks) w.db.events)
        (last, refl, (refl, refl))

  -- What a compaction of an item with these events leaves, where the clock is read from a step on.
  abbrev pub Compacts :
      String
      → Option ItemSnapshot
      → ℕ
      → List ItemEvent
      → Db J
      → Result CompactionOutcome
      → Db J
      → Type 0
  Compacts i existing n [] db result db' = (result ≡ ok no_events) × (db' ≡ db)
  Compacts i existing n (e ∷ es) db result db' =
      let a = aggregate_of existing in
      Stores i existing (final_of n a (e ∷ es)) (counted_ids n a (e ∷ es)) db result db'

  compact_events-Compacts :
      (i : String) (es : List ItemEvent) (existing : Option ItemSnapshot) (w : World J)
      → IsQuiet env
      → optional_snapshot env (find snapshot_key i w.db.snapshots) ≡ ok existing
      → let (result, w') = compact_events env i es w in
        Compacts i existing (suc w.ticks) es w.db result w'.db
  unfolding compact_events pure fetch_snapshot
  compact_events-Compacts i [] existing w quiet read = (refl, refl)
  compact_events-Compacts i (e ∷ es) existing w quiet read =
      let a : Option ItemAggregate = aggregate_of existing in
      let w1 : World J = record w { ticks = suc w.ticks } in
      let w2 : World J = record w { ticks = w1.ticks + length (e ∷ es) } in
      let fold : Fold = fold_of (final_of w1.ticks a (e ∷ es)) (counted_ids w1.ticks a (e ∷ es)) in
      let fetched : fetch_snapshot env i w ≡ (ok existing, w1) =
        read-quiet env (λ db. optional_snapshot env (find snapshot_key i db.snapshots)) w
          (quiet w.ticks)
        ∙ ap (λ x. (x, w1)) read in
      let looped : fold_events env (fold_of a []) (e ∷ es) w1 ≡ (ok fold, w2) =
        fold_events-eq-folded env (fold_of a []) (e ∷ es) w1
        ∙ ap (λ x. (ok x, w2)) (folded-final_of w1.ticks a [] (e ∷ es)) in
      let first =
        >>=-of_run (fetch_snapshot env i)
          (λ found. do
            f ← fold_events env (fold_of (aggregate_of found) []) (e ∷ es)
            store_fold env i found f)
          w w1 existing fetched in
      let second =
        >>=-of_run (fold_events env (fold_of a []) (e ∷ es)) (store_fold env i existing) w1 w2 fold
          looped in
      let run : compact_events env i (e ∷ es) w ≡ store_fold env i existing fold w2 =
        first ∙ second in
      rw run (
        store_fold-Stores i existing (final_of w1.ticks a (e ∷ es))
          (counted_ids w1.ticks a (e ∷ es)) w2 quiet)

  -- Where no statement fails and the item's snapshot reads back, if there is one, compacting the item
  -- leaves the database as it was if it has no uncompacted events, or none of them counts, or there is
  -- no aggregate after them. Otherwise the aggregate after the events is stored as the next revision
  -- of the snapshot, which names the last event that counts; exactly the events that count, those that
  -- apply or are ignored, are marked as compacted and their number is returned, and nothing else
  -- changes.
  pub compact_item-Compacts :
      (i : String) (existing : Option ItemSnapshot) (w : World J)
      → IsQuiet env
      → optional_snapshot env (find snapshot_key i w.db.snapshots) ≡ ok existing
      → let (result, w') = compact_item env i w in
        Compacts i existing (suc (suc w.ticks)) (uncompacted env i w.db) w.db result w'.db
  unfolding compact_item compact_events fetch_uncompacted_events
  compact_item-Compacts i existing w quiet read =
      let w1 : World J = record w { ticks = suc w.ticks } in
      let run : compact_item env i w ≡ compact_events env i (uncompacted env i w.db) w1 =
        >>=-of_run (fetch_uncompacted_events env i) (compact_events env i) w w1
          (uncompacted env i w.db)
          (read-quiet env (λ db. ok (uncompacted env i db)) w (quiet w.ticks)) in
      rw run (compact_events-Compacts i (uncompacted env i w.db) existing w1 quiet read)
