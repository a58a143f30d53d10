-- ===== src/Sync/Compactor/Folding.antt =====
-- The fold of `compact_item` in purr-sync/src/compactor.rs.
use clipkitty.Base.{
  ℕ, ℤ, suc, ◌+◌, ◌<◌, ◌≡◌, refl, ap, ◌∙◌, ◌⊎◌, inl, inr, String, some, List, [], ◌∷◌, map, All,
  length, arith, keep, is_empty, if◌then◌else◌,
}
use clipkitty.Base.Table.{find, order_by}
use clipkitty.Sync.Types.{live, LiveItemState, ItemEventPayload, text_edited}
use clipkitty.Sync.Projector.{apply_event}
use clipkitty.Sync.Event.{ItemEvent, Result, ok}
use clipkitty.Sync.Db.{Db, Env, World, SnapshotRow}
use clipkitty.Sync.Monad.{Sync, IsQuiet, pure, now, continue, ◌>>=◌, >>=-of_run, read-quiet}
use clipkitty.Sync.Store.{
  fetch_uncompacted_events, fetch_snapshot, optional_snapshot, snapshot_key, event_of_row,
  is_uncompacted_of, in_order,
}
use clipkitty.Sync.Store.Laws.{snapshot_with, optional_snapshot-of_some}
use clipkitty.Sync.Replay.{aggregate_of}
use clipkitty.Sync.Compactor.{
  CompactionOutcome, not_needed, no_events, Fold, fold_result, fold_events, store_fold,
  compact_item,
}

-- A text edit from a base that the live state has left behind.
abbrev pub IsStaleEdit : LiveItemState → ItemEventPayload → Type 0
IsStaleEdit l (text_edited _ base) = base < l.versions.content
IsStaleEdit l _ = ⊥

fold_result-stale :
    (h : String → String) (t : ℤ) (l : LiveItemState) (id : String) (p : ItemEventPayload)
    (f : Fold)
    → IsStaleEdit l p
    → f.aggregate ≡ some (live l)
    → fold_result id (apply_event h t f.aggregate p) f ≡ f
unfolding fold_result apply_event
fold_result-stale h t l id (text_edited x base) f s e = ground arith
fold_result-stale h t l id p f s e = ground arith

module _ {J : Type 0} (env : Env J) where
  -- The loop with its readings of the clock, and nothing else of the world.
  unfoldable pub folded : ℕ → Fold → List ItemEvent → Fold
  folded t f [] = f
  folded t f (e ∷ es) =
      folded (suc t)
        (fold_result e.event_id (apply_event env.content_hash (env.clock t) f.aggregate e.payload)
          f)
        es

  pub fold_events-eq-folded :
      (f : Fold) (es : List ItemEvent) (w : World J)
      → fold_events env f es w
        ≡ (ok (folded w.ticks f es), record w { ticks = w.ticks + length es })
  unfolding fold_events folded now pure ◌>>=◌ continue
  fold_events-eq-folded f [] w = ground arith
  fold_events-eq-folded f (e ∷ es) w =
      let f' =
        fold_result e.event_id
          (apply_event env.content_hash (env.clock w.ticks) f.aggregate e.payload) f in
      ground (arith, fold_events-eq-folded f' es (record w { ticks = suc w.ticks }))

  folded-stale :
      (t : ℕ) (f : Fold) (es : List ItemEvent) (l : LiveItemState)
      → All (λ e. IsStaleEdit l e.payload) es
      → f.aggregate ≡ some (live l)
      → folded t f es ≡ f
  unfolding folded
  folded-stale t f [] l s e = refl
  folded-stale t f (x ∷ es) l (s, ss) e =
      rw (fold_result-stale env.content_hash (env.clock t) l x.event_id x.payload f s e)
        (folded-stale (suc t) f es l ss e)

  -- What `fetch_uncompacted_events` reads.
  abbrev pub uncompacted : String → Db J → List ItemEvent
  uncompacted i db =
      map (event_of_row env) (order_by in_order (keep (is_uncompacted_of i) db.events))

  abbrev NothingDone : World J → Result CompactionOutcome × World J → Type 0
  NothingDone w out = (out.1.db ≡ w.db) × ((out.0 ≡ ok not_needed) ⊎ (out.0 ≡ ok no_events))

  unfoldable pub compact_events : String → List ItemEvent → Sync J CompactionOutcome
  compact_events i es = if is_empty es then pure no_events else (do
    existing ← fetch_snapshot env i
    f ← fold_events env (record { aggregate = aggregate_of existing; applied_event_ids = [] }) es
    store_fold env i existing f)

  compact_events-stale :
      (i : String) (es : List ItemEvent) (w : World J) (r : SnapshotRow J) (l : LiveItemState)
      → IsQuiet env
      → find snapshot_key i w.db.snapshots ≡ some r
      → env.serde.decode_aggregate r.aggregate_state ≡ some (live l)
      → All (λ e. IsStaleEdit l e.payload) es
      → NothingDone w (compact_events i es w)
  unfolding compact_events pure fetch_snapshot store_fold
  compact_events-stale i [] w r l quiet found decoded stale = (refl, inr refl)
  compact_events-stale i (e ∷ es) w r l quiet found decoded stale =
      let f : Fold = record { aggregate = some (live l); applied_event_ids = [] } in
      let w1 : World J = record w { ticks = suc w.ticks } in
      let s = snapshot_with r (live l) in
      let w2 : World J = record w { ticks = w1.ticks + length (e ∷ es) } in
      let fetched : fetch_snapshot env i w ≡ (ok (some s), w1) =
        read-quiet env (λ db. optional_snapshot env (find snapshot_key i db.snapshots)) w
          (quiet w.ticks)
        ∙ ap (λ x. (x, w1))
            (ap (optional_snapshot env) found ∙ optional_snapshot-of_some env r (live l) decoded) in
      let looped : fold_events env f (e ∷ es) w1 ≡ (ok f, w2) =
        fold_events-eq-folded f (e ∷ es) w1
        ∙ ap (λ x. (ok x, w2)) (folded-stale w1.ticks f (e ∷ es) l stale refl) in
      let first =
        >>=-of_run (fetch_snapshot env i)
          (λ existing. do
            f ←
                fold_events env
                  (record { aggregate = aggregate_of existing; applied_event_ids = [] }) (e ∷ es)
            store_fold env i existing f)
          w w1 (some s) fetched in
      let second =
        >>=-of_run (fold_events env f (e ∷ es)) (store_fold env i (some s)) w1 w2 f looped in
      let run : compact_events i (e ∷ es) w ≡ (ok not_needed, w2) = first ∙ second in
      rw run (refl, inl refl)

  -- Where no statement fails, the snapshot of an item is stored and reads back as live, and every
  -- event that is not yet compacted is a text edit from an older base, compacting the item ends
  -- with no snapshot and changes nothing.
  pub compact_item-stale_edits :
      (i : String) (w : World J) (r : SnapshotRow J) (l : LiveItemState)
      → IsQuiet env
      → find snapshot_key i w.db.snapshots ≡ some r
      → env.serde.decode_aggregate r.aggregate_state ≡ some (live l)
      → All (λ e. IsStaleEdit l e.payload) (uncompacted i w.db)
      → let (result, w') = compact_item env i w in
        (w'.db ≡ w.db) × ((result ≡ ok not_needed) ⊎ (result ≡ ok no_events))
  unfolding compact_item compact_events fetch_uncompacted_events
  compact_item-stale_edits i w r l quiet found decoded stale =
      let w1 : World J = record w { ticks = suc w.ticks } in
      let run : compact_item env i w ≡ compact_events i (uncompacted i w.db) w1 =
        >>=-of_run (fetch_uncompacted_events env i) (compact_events i) w w1 (uncompacted i w.db)
          (read-quiet env (λ db. ok (uncompacted i db)) w (quiet w.ticks)) in
      rw run (compact_events-stale i (uncompacted i w.db) w1 r l quiet found decoded stale)
