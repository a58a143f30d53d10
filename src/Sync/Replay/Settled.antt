-- ===== src/Sync/Replay/Settled.antt =====
-- The tables of deferred and of applied events, under `apply_remote_event` of
-- purr-sync/src/replay.rs.
use text.Mathlib.TextPositions.{eq_refl}
use clipkitty.Base.{
  ◌≡◌, refl, ap, Bool, true, false, String, Option, none, some, List, arith, ltb, is_some,
  if◌then◌else◌, suc,
}
use clipkitty.Base.Table.{find, find-insert_ignore, replace, delete, find-append_one}
use clipkitty.Sync.Types.{
  ItemAggregate, ApplyResult, applied, ignored, deferred, forked, IgnoreReason, already_applied,
  unknown_payload, sync_schema_version,
}
use clipkitty.Sync.Projector.Outcome.{is_deferred}
use clipkitty.Sync.Event.{IsSerde, ItemEvent, ItemSnapshot, compacted, ok, Result}
use clipkitty.Sync.Db.{Db, Env, World, SnapshotRow, ProjectionRow, DeferredRow}
use clipkitty.Sync.Monad.{
  Ensures, Keeps, Ensures-pure, Ensures-read, Ensures-write, Ensures-bind, Ensures-then, IsQuiet,
  Sync, pure, ok-injective, read, exec, statement, continue, ◌>>=◌,
}
use clipkitty.Sync.Store.{
  mark_event_applied, defer_event, upsert_snapshot, upsert_projection, is_event_applied,
  row_of_state, ProjectionEntry, dedup_key, deferred_key, row_of_deferred,
}
use clipkitty.Sync.Replay.{
  store_aggregate, store_result, mark_ignored, project_and_store, receive, apply_remote_event,
  projection_state_for_aggregate, raw_type_of,
}
use clipkitty.Sync.Replay.Consistent.{
  IsConsistent, IsPending, IsReadable-of_IsConsistent, IsReadable-of_IsPending, snapshot-IsPending,
  projection-IsConsistent, row_of_projection,
}
use clipkitty.Sync.Replay.Keeps.{
  Good, IsReadable-of_Good, fetch_snapshot-Keeps, fetch_projection-Keeps, project-Keeps,
  append-Keeps,
}

-- A property that the writes of an item's snapshot and projection leave alone.
pub record IsFrame {J : Type 0} (F : Db J → Type 0) : Type 0 where
  pub snapshots :
      (db : Db J) (rows : List (SnapshotRow J)) → F db → F (record db { snapshots = rows })
  pub projection :
      (db : Db J) (rows : List ProjectionRow) → F db → F (record db { projection = rows })

module _ {J : Type 0} (env : Env J) (laws : IsSerde env.serde) (F : Db J → Type 0)
    (frame : IsFrame F) where
  abbrev Settling : Db J → Type 0
  Settling db = IsConsistent env db × F db

  abbrev Halfway : String → ItemAggregate → Db J → Type 0
  Halfway i a db = IsPending env i a db × F db

  upsert_snapshot-frame :
      (s : ItemSnapshot)
      → Ensures env Settling (upsert_snapshot env s) (λ _. Halfway s.item_id s.aggregate)
  unfolding upsert_snapshot
  upsert_snapshot-frame s =
      Ensures-write env _
        (λ t db (h, f). (snapshot-IsPending env laws s db h, frame.snapshots db _ f))

  upsert_projection-frame :
      (i : String) (a : ItemAggregate) (entry : Option ProjectionEntry)
      → Ensures env
          (Halfway i a)
          (upsert_projection env i (projection_state_for_aggregate entry a))
          (λ _. Settling)
  unfolding upsert_projection
  upsert_projection-frame i a entry =
      let (ei, ev, et) = row_of_projection env i entry a in
      Ensures-write env _ (λ t db (h, f). (
        projection-IsConsistent env i a (row_of_state i (projection_state_for_aggregate entry a)) db
            ei ev et h,
        frame.projection db _ f,
      ))

  pub store_aggregate-frame :
      (e : ItemEvent) (a : ItemAggregate) → Keeps env Settling (store_aggregate env e a)
  unfolding store_aggregate compacted
  store_aggregate-frame e a =
      Ensures-bind (λ _. Settling) _ _
        (fetch_snapshot-Keeps env Settling (λ db (h, f). IsReadable-of_IsConsistent env db h)
          e.item_id)
        (λ existing. Ensures-then (Halfway e.item_id a) _ _ (upsert_snapshot-frame _) (
          Ensures-bind (λ _. Halfway e.item_id a) _ _
            (fetch_projection-Keeps env (Halfway e.item_id a)
              (λ db (h, f). IsReadable-of_IsPending env e.item_id a db h) e.item_id)
            (upsert_projection-frame e.item_id a)))

abbrev pub IsMarked : {J : Type 0} → String → Db J → Type 0
IsMarked i db = is_some (find dedup_key i db.dedup) ≡ true

abbrev pub IsWaiting : {J : Type 0} → String → Db J → Type 0
IsWaiting i db = is_some (find deferred_key i db.deferred) ≡ true

-- Where an event stands after the outcome it had.
abbrev pub IsSettled : {J : Type 0} → String → ApplyResult → Db J → Type 0
IsSettled i (deferred _) db = IsWaiting i db
IsSettled i _ db = IsMarked i db

find-replace_self :
    {J : Type 0} (r : DeferredRow J) (rs : List (DeferredRow J))
    → is_some (find deferred_key r.event_id (replace deferred_key r rs)) ≡ true
unfolding replace
find-replace_self r rs = ground (
  arith,
  find-append_one deferred_key r (delete deferred_key r.event_id rs) r.event_id,
  eq_refl r.event_id,
)

module _ {J : Type 0} (env : Env J) (laws : IsSerde env.serde) where
  abbrev Both : (Db J → Type 0) → Db J → Type 0
  Both F db = IsConsistent env db × F db

  mark-IsMarked :
      (i : String) → Ensures env (Good env laws) (mark_event_applied env i) (λ _. Both (IsMarked i))
  unfolding mark_event_applied
  mark-IsMarked i = Ensures-write env _ (λ t db h. (
    h,
    rw
        (
          find-insert_ignore dedup_key (record { event_id = i; applied_at = t }) db.dedup i,
          eq_refl i,
        )
        refl,
  ))

  IsMarked-frame : (i : String) → IsFrame (IsMarked {J = J} i)
  IsMarked-frame i = record { snapshots = λ db rows h. h; projection = λ db rows h. h }

  store_result-settles :
      (e : ItemEvent) (r : ApplyResult)
      → Ensures env (Good env laws) (store_result env e r) (λ _. Both (IsSettled e.event_id r))
  unfolding store_result defer_event
  store_result-settles e (applied delta) =
      Ensures-then (Good env laws) _ _ (append-Keeps env laws e) (
        Ensures-then (Both (IsMarked e.event_id)) _ _ (mark-IsMarked e.event_id) (
          store_aggregate-frame env laws (IsMarked e.event_id) (IsMarked-frame e.event_id) e
            delta.new_aggregate))
  store_result-settles e (ignored r) = mark-IsMarked e.event_id
  store_result-settles e (deferred r) =
      Ensures-write env _ (λ t db h. (h, find-replace_self (row_of_deferred env t e r) db.deferred))
  store_result-settles e (forked p) =
      Ensures-then (Good env laws) _ _ (append-Keeps env laws e) (mark-IsMarked e.event_id)

  project_and_store-settles :
      (e : ItemEvent)
      → Ensures env (Good env laws) (project_and_store env e) (λ r. Both (IsSettled e.event_id r))
  unfolding project_and_store
  project_and_store-settles e =
      Ensures-bind (λ _. Good env laws) _ _
        (project-Keeps env (Good env laws) (IsReadable-of_Good env laws) e)
        (λ r.
          Ensures-then (Both (IsSettled e.event_id r)) _ _ (store_result-settles e r)
            (Ensures-pure r (λ db h. h)))

  mark_ignored-settles :
      (e : ItemEvent) (reason : IgnoreReason)
      → Ensures env (Good env laws) (mark_ignored env e reason) (λ r. Both (IsSettled e.event_id r))
  unfolding mark_ignored
  mark_ignored-settles e reason =
      Ensures-then (Both (IsMarked e.event_id)) _ _ (mark-IsMarked e.event_id)
        (Ensures-pure _ (λ db h. h))

  by_raw_type-settles :
      (e : ItemEvent) (o : Option String)
      → Ensures env
          (Good env laws)
          (elim o [
            | some raw_type ↦ mark_ignored env e (unknown_payload raw_type)
            | none ↦ project_and_store env e
          ])
          (λ r. Both (IsSettled e.event_id r))
  by_raw_type-settles e none = project_and_store-settles e
  by_raw_type-settles e (some raw_type) = mark_ignored-settles e (unknown_payload raw_type)

  either-settles :
      (e : ItemEvent) (b : Bool) (m n : Sync J ApplyResult)
      → Ensures env (Good env laws) m (λ r. Both (IsSettled e.event_id r))
      → Ensures env (Good env laws) n (λ r. Both (IsSettled e.event_id r))
      → Ensures env (Good env laws) (if b then m else n) (λ r. Both (IsSettled e.event_id r))
  either-settles e true m n hm hn = hm
  either-settles e false m n hm hn = hn

  receive-settles :
      (e : ItemEvent)
      → Ensures env (Good env laws) (receive env e) (λ r. Both (IsSettled e.event_id r))
  unfolding receive
  receive-settles e =
      either-settles e (ltb sync_schema_version e.schema_version) _ _ (mark_ignored-settles e _)
        (by_raw_type-settles e (raw_type_of e.payload))

  abbrev Seen : ItemEvent → Bool → Db J → Type 0
  Seen e seen db = IsConsistent env db × (is_some (find dedup_key e.event_id db.dedup) ≡ seen)

  Seen-settles :
      (e : ItemEvent) (seen : Bool)
      → Ensures env
          (Seen e seen)
          (if seen then pure (ignored already_applied) else receive env e)
          (λ r. Both (IsSettled e.event_id r))
  Seen-settles e true = Ensures-pure _ (λ db h. h)
  Seen-settles e false = record {
    runs = λ quiet w h. (receive-settles e).runs quiet w h.0;
    at = λ w a h eq. (receive-settles e).at w a h.0 eq;
  }

  -- On a consistent database where no statement fails, a remote event is taken; and where it is
  -- taken, its outcome is settled: it waits in the table of deferred events if it was deferred, and
  -- is marked as applied if it was applied, ignored or forked. The database stays consistent.
  pub apply_remote_event-Settling :
      (e : ItemEvent)
      → Ensures env (Good env laws) (apply_remote_event env e) (λ r. Both (IsSettled e.event_id r))
  unfolding apply_remote_event is_event_applied
  apply_remote_event-Settling e =
      Ensures-bind (Seen e) _ _
        (Ensures-read env _ (λ db h. (_, refl)) (λ db a h eq. (h, ok-injective eq)))
        (Seen-settles e)

  apply_remote_event-of_IsMarked :
      (e : ItemEvent) (w : World J)
      → env.fault w.ticks ≡ none
      → IsMarked e.event_id w.db
      → apply_remote_event env e w
        ≡ (ok (ignored already_applied), record w { ticks = suc w.ticks })
  unfolding apply_remote_event is_event_applied read exec statement ◌>>=◌ continue pure
  apply_remote_event-of_IsMarked e w quiet m = ground arith

  -- Where no statement fails and the serialiser reads back what it wrote, on a consistent database,
  -- an event whose first delivery was not deferred is, delivered a second time, reported as already
  -- applied and changes nothing in the database.
  pub apply_remote_event-once :
      (e : ItemEvent) (w : World J) (r : ApplyResult)
      → IsQuiet env
      → IsConsistent env w.db
      → is_deferred r ≡ false
      → (apply_remote_event env e w).0 ≡ ok r
      → let w' = (apply_remote_event env e w).1 in
        ((apply_remote_event env e w').0 ≡ ok (ignored already_applied))
        × ((apply_remote_event env e w').1.db ≡ w'.db)
  apply_remote_event-once e w r quiet good nd eq =
      let m = marked r nd ((apply_remote_event-Settling e).at w r good eq).1 in
      let again = apply_remote_event-of_IsMarked e (apply_remote_event env e w).1 (quiet _) m in
      (
        ap (λ (o : Result ApplyResult × World J). o.0) again,
        ap (λ (o : Result ApplyResult × World J). o.1.db) again,
      )
    where
      marked :
          (r : ApplyResult)
          → is_deferred r ≡ false
          → IsSettled e.event_id r (apply_remote_event env e w).1.db
          → IsMarked e.event_id (apply_remote_event env e w).1.db
      marked (applied d) n h = h
      marked (ignored d) n h = h
      marked (deferred d) n h = absurd cc
      marked (forked d) n h = h
