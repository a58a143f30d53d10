-- ===== src/Sync/Replay/Stable.antt =====
-- Properties of the database that the writes of purr-sync/src/replay.rs do not break, beside the
-- consistency of the projection.
use clipkitty.Base.{
  ◌≡◌, ◌||◌, true, String, Option, none, some, List, [], ◌∷◌, All, arith, is_some, ltb,
}
use clipkitty.Base.Table.{
  find, find-insert_ignore, find-replace, find-delete, insert_ignore, replace, delete,
}
use clipkitty.Sync.Types.{
  ApplyResult, applied, ignored, deferred, forked, DeferredReason, IgnoreReason, unknown_payload,
  sync_schema_version,
}
use clipkitty.Sync.Event.{IsSerde, ItemEvent}
use clipkitty.Sync.Db.{Db, Env, EventRow, DedupRow, DeferredRow, FlagRow}
use clipkitty.Sync.Monad.{Keeps, Keeps-pure, Keeps-if, Ensures-write, Ensures-bind, Ensures-then}
use clipkitty.Sync.Store.{
  append_remote_event, mark_event_applied, defer_event, dedup_key, deferred_key,
}
use clipkitty.Sync.Replay.{
  store_result, mark_ignored, project_and_store, receive, apply_remote_event, raw_type_of,
}
use clipkitty.Sync.Replay.Consistent.{IsConsistent, IsReadable-of_IsConsistent}
use clipkitty.Sync.Replay.Keeps.{project-Keeps, is_event_applied-Keeps}
use clipkitty.Sync.Replay.Settled.{IsFrame, store_aggregate-frame}

-- A property that no write of the replay breaks. An event leaves the table of deferred events only
-- when it is marked.
pub record IsStable {J : Type 0} (F : Db J → Type 0) : Type 0 where
  pub frame : IsFrame F
  pub events : (db : Db J) (rows : List (EventRow J)) → F db → F (record db { events = rows })
  pub flags : (db : Db J) (rows : List FlagRow) → F db → F (record db { flags = rows })
  pub marked :
      (db : Db J) (r : DedupRow)
      → F db
      → F (record db { dedup = insert_ignore dedup_key r db.dedup })
  pub waiting :
      (db : Db J) (r : DeferredRow J)
      → F db
      → F (record db { deferred = replace deferred_key r db.deferred })
  pub retired :
      (db : Db J) (r : DedupRow)
      → F db
      → F (record db {
        deferred = delete deferred_key r.event_id db.deferred;
        dedup = insert_ignore dedup_key r db.dedup;
      })

pub IsStable-unit : {J : Type 0} → IsStable {J = J} (λ _. Unit {0})
IsStable-unit = record {
  frame = record { snapshots = λ db rows f. tt; projection = λ db rows f. tt };
  events = λ db rows f. tt;
  flags = λ db rows f. tt;
  marked = λ db r f. tt;
  waiting = λ db r f. tt;
  retired = λ db r f. tt;
}

pub IsStable-pair :
    {J : Type 0} {F G : Db J → Type 0} → IsStable F → IsStable G → IsStable (λ db. F db × G db)
IsStable-pair sf sg = record {
  frame = record {
    snapshots = λ db rows (f, g). (sf.frame.snapshots db rows f, sg.frame.snapshots db rows g);
    projection = λ db rows (f, g). (sf.frame.projection db rows f, sg.frame.projection db rows g);
  };
  events = λ db rows (f, g). (sf.events db rows f, sg.events db rows g);
  flags = λ db rows (f, g). (sf.flags db rows f, sg.flags db rows g);
  marked = λ db r (f, g). (sf.marked db r f, sg.marked db r g);
  waiting = λ db r (f, g). (sf.waiting db r f, sg.waiting db r g);
  retired = λ db r (f, g). (sf.retired db r f, sg.retired db r g);
}

-- An event that is marked as applied or waits as deferred.
abbrev pub IsKnown : {J : Type 0} → String → Db J → Type 0
IsKnown i db =
    (is_some (find dedup_key i db.dedup) || is_some (find deferred_key i db.deferred)) ≡ true

pub IsKnown-IsStable : {J : Type 0} (i : String) → IsStable {J = J} (IsKnown i)
IsKnown-IsStable i = record {
  frame = record { snapshots = λ db rows f. f; projection = λ db rows f. f };
  events = λ db rows f. f;
  flags = λ db rows f. f;
  marked = λ db r f. ground (arith, find-insert_ignore dedup_key r db.dedup i);
  waiting = λ db r f. ground (arith, find-replace deferred_key r db.deferred i);
  retired = λ db r f. ground (
    arith,
    find-insert_ignore dedup_key r db.dedup i,
    find-delete deferred_key r.event_id db.deferred i,
  );
}

-- All events of a list are known.
abbrev pub AllKnown : {J : Type 0} → List ItemEvent → Db J → Type 0
AllKnown es db = All (λ e. IsKnown e.event_id db) es

pub AllKnown-IsStable : {J : Type 0} (es : List ItemEvent) → IsStable {J = J} (AllKnown es)
AllKnown-IsStable [] = IsStable-unit
AllKnown-IsStable (e ∷ es) = IsStable-pair (IsKnown-IsStable e.event_id) (AllKnown-IsStable es)

abbrev pub Sound : {J : Type 0} → Env J → (Db J → Type 0) → Db J → Type 0
Sound env F db = IsConsistent env db × F db

module _ {J : Type 0} (env : Env J) (laws : IsSerde env.serde) (F : Db J → Type 0)
    (stable : IsStable F) where
  pub append-Sound : (e : ItemEvent) → Keeps env (Sound env F) (append_remote_event env e)
  unfolding append_remote_event
  append-Sound e = Ensures-write env _ (λ t db (h, f). (h, stable.events db _ f))

  pub mark-Sound : (i : String) → Keeps env (Sound env F) (mark_event_applied env i)
  unfolding mark_event_applied
  mark-Sound i = Ensures-write env _ (λ t db (h, f). (h, stable.marked db _ f))

  defer-Sound : (e : ItemEvent) (r : DeferredReason) → Keeps env (Sound env F) (defer_event env e r)
  unfolding defer_event
  defer-Sound e r = Ensures-write env _ (λ t db (h, f). (h, stable.waiting db _ f))

  store_result-Sound :
      (e : ItemEvent) (r : ApplyResult) → Keeps env (Sound env F) (store_result env e r)
  unfolding store_result
  store_result-Sound e (applied delta) = Ensures-then (Sound env F) _ _ (append-Sound e) (
      Ensures-then (Sound env F) _ _ (mark-Sound e.event_id)
        (store_aggregate-frame env laws F stable.frame e delta.new_aggregate))
  store_result-Sound e (ignored r) = mark-Sound e.event_id
  store_result-Sound e (deferred r) = defer-Sound e r
  store_result-Sound e (forked p) =
      Ensures-then (Sound env F) _ _ (append-Sound e) (mark-Sound e.event_id)

  mark_ignored-Sound :
      (e : ItemEvent) (r : IgnoreReason) → Keeps env (Sound env F) (mark_ignored env e r)
  unfolding mark_ignored
  mark_ignored-Sound e r = Ensures-then (Sound env F) _ _ (mark-Sound e.event_id) (Keeps-pure _)

  project_and_store-Sound : (e : ItemEvent) → Keeps env (Sound env F) (project_and_store env e)
  unfolding project_and_store
  project_and_store-Sound e =
      Ensures-bind (λ _. Sound env F) _ _
        (project-Keeps env (Sound env F) (λ db (h, f). IsReadable-of_IsConsistent env db h) e)
        (λ r. Ensures-then (Sound env F) _ _ (store_result-Sound e r) (Keeps-pure r))

  by_raw_type-Sound :
      (e : ItemEvent) (o : Option String)
      → Keeps env (Sound env F) (elim o [
        | some raw_type ↦ mark_ignored env e (unknown_payload raw_type)
        | none ↦ project_and_store env e
      ])
  by_raw_type-Sound e none = project_and_store-Sound e
  by_raw_type-Sound e (some raw_type) = mark_ignored-Sound e (unknown_payload raw_type)

  receive-Sound : (e : ItemEvent) → Keeps env (Sound env F) (receive env e)
  unfolding receive
  receive-Sound e =
      Keeps-if (ltb sync_schema_version e.schema_version) _ _ (mark_ignored-Sound e _)
        (by_raw_type-Sound e (raw_type_of e.payload))

  -- A remote event that is taken without an error keeps the projection consistent and whatever is
  -- stable, whatever the event is and whatever becomes of it.
  pub apply_remote_event-Sound :
      (e : ItemEvent) → Keeps env (Sound env F) (apply_remote_event env e)
  unfolding apply_remote_event
  apply_remote_event-Sound e =
      Ensures-bind (λ _. Sound env F) _ _
        (is_event_applied-Keeps env (Sound env F) (λ db (h, f). IsReadable-of_IsConsistent env db h)
          e.event_id)
        (λ seen. Keeps-if seen _ _ (Keeps-pure _) (receive-Sound e))
