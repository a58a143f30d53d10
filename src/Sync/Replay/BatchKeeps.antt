-- ===== src/Sync/Replay/BatchKeeps.antt =====
-- The batch and retry loops of purr-sync/src/replay.rs against a consistent database.
use clipkitty.Base.{
  ℕ, zero, suc, ltb, refl, Bool, true, false, String, List, [], ◌∷◌, is_empty, ℤ, arith,
}
use clipkitty.Base.Table.{insert_ignore}
use clipkitty.Sync.Types.{ApplyResult, applied, ignored, deferred, forked}
use clipkitty.Sync.Event.{IsSerde, ItemEvent}
use clipkitty.Sync.Db.{Db, Env}
use clipkitty.Sync.Monad.{
  Keeps, Keeps-pure, Keeps-if, Keeps-elim, Ensures, Ensures-read, Ensures-write, Ensures-bind,
  Ensures-then, Ensures-pure, Ensures-both, Ensures-weaken,
}
use clipkitty.Sync.Store.{
  append_remote_event, mark_event_applied, remove_deferred_event, fetch_all_deferred_events,
  count_deferred_events, set_dirty_flag, flag_needs_full_resync, dedup_key,
}
use clipkitty.Sync.Replay.{apply_remote_event}
use clipkitty.Sync.Replay.Batch.{
  BatchApplyResult, Round, counted, count_result, no_result, store_retry, retry_event, retry_round,
  flag_remaining, retry_rounds, retry_deferred_events, apply_events, apply_remote_event_batch,
  max_deferred_retry_rounds,
}
use clipkitty.Sync.Replay.Consistent.{IsConsistent, IsReadable-of_IsConsistent}
use clipkitty.Sync.Replay.Keeps.{project-Keeps}
use clipkitty.Sync.Replay.Settled.{IsSettled, store_aggregate-frame, apply_remote_event-Settling}
use clipkitty.Sync.Replay.Stable.{
  Sound, IsStable, IsStable-pair, IsStable-unit, IsKnown, IsKnown-IsStable, AllKnown,
  AllKnown-IsStable, apply_remote_event-Sound,
}

module _ {J : Type 0} (env : Env J) (laws : IsSerde env.serde) (F : Db J → Type 0)
    (stable : IsStable F) where
  -- The event has left the table of deferred events and is not marked yet.
  abbrev Leaving : String → Db J → Type 0
  Leaving i db =
      IsConsistent env db
      × ((t : ℤ)
          → F (record db {
            dedup = insert_ignore dedup_key (record { event_id = i; applied_at = t }) db.dedup;
          }))

  remove-Leaving :
      (i : String) → Ensures env (Sound env F) (remove_deferred_event env i) (λ _. Leaving i)
  unfolding remove_deferred_event
  remove-Leaving i =
      Ensures-write env _
        (λ t db (h, f). (h, λ u. stable.retired db (record { event_id = i; applied_at = u }) f))

  append-Leaving : (i : String) (e : ItemEvent) → Keeps env (Leaving i) (append_remote_event env e)
  unfolding append_remote_event
  append-Leaving i e = Ensures-write env _ (λ t db (h, f). (
    h,
    λ u.
        stable.events
          (record db {
            dedup = insert_ignore dedup_key (record { event_id = i; applied_at = u }) db.dedup;
          })
          _ (f u),
  ))

  mark-Leaving :
      (i : String) → Ensures env (Leaving i) (mark_event_applied env i) (λ _. Sound env F)
  unfolding mark_event_applied
  mark-Leaving i = Ensures-write env _ (λ t db (h, f). (h, f t))

  flag-Sound : (f : String) (b : Bool) → Keeps env (Sound env F) (set_dirty_flag env f b)
  unfolding set_dirty_flag
  flag-Sound f b = Ensures-write env _ (λ t db (h, k). (h, stable.flags db _ k))

  pub fetch_deferred-Sound : Keeps env (Sound env F) (fetch_all_deferred_events env)
  unfolding fetch_all_deferred_events
  fetch_deferred-Sound = Ensures-read env _ (λ db h. (_, refl)) (λ db a h e. h)

  count-Sound : Keeps env (Sound env F) (count_deferred_events env)
  unfolding count_deferred_events
  count-Sound = Ensures-read env _ (λ db h. (_, refl)) (λ db a h e. h)

  store_retry-Sound :
      (e : ItemEvent) (r : ApplyResult) → Keeps env (Sound env F) (store_retry env e r)
  unfolding store_retry
  store_retry-Sound e (applied delta) =
      Ensures-then (Leaving e.event_id) _ _ (remove-Leaving e.event_id) (
        Ensures-then (Leaving e.event_id) _ _ (append-Leaving e.event_id e) (
          Ensures-then (Sound env F) _ _ (mark-Leaving e.event_id)
            (store_aggregate-frame env laws F stable.frame e delta.new_aggregate)))
  store_retry-Sound e (ignored r) =
      Ensures-then (Leaving e.event_id) _ _ (remove-Leaving e.event_id) (mark-Leaving e.event_id)
  store_retry-Sound e (deferred r) = Keeps-pure tt
  store_retry-Sound e (forked p) =
      Ensures-then (Leaving e.event_id) _ _ (remove-Leaving e.event_id) (
        Ensures-then (Leaving e.event_id) _ _ (append-Leaving e.event_id e)
          (mark-Leaving e.event_id))

  pub retry_event-Sound : (e : ItemEvent) → Keeps env (Sound env F) (retry_event env e)
  unfolding retry_event
  retry_event-Sound e =
      Ensures-bind (λ _. Sound env F) _ _
        (project-Keeps env (Sound env F) (λ db (h, f). IsReadable-of_IsConsistent env db h) e)
        (λ r. Ensures-then (Sound env F) _ _ (store_retry-Sound e r) (Keeps-pure r))

  retry_round-Sound :
      (round : Round) (es : List ItemEvent) → Keeps env (Sound env F) (retry_round env round es)
  unfolding retry_round
  retry_round-Sound round [] = Keeps-pure round
  retry_round-Sound round (e ∷ es) =
      Ensures-bind (λ _. Sound env F) _ _ (retry_event-Sound e)
        (λ r. retry_round-Sound (counted round e r) es)

  flag_remaining-Sound : (r : BatchApplyResult) → Keeps env (Sound env F) (flag_remaining env r)
  unfolding flag_remaining
  flag_remaining-Sound r =
      Ensures-bind (λ _. Sound env F) _ _ count-Sound
        (λ n.
          Keeps-if (ltb 0 n) _ _
            (Ensures-then (Sound env F) _ _ (flag-Sound flag_needs_full_resync true) (Keeps-pure _))
            (Keeps-pure r))

  pub retry_rounds-Sound :
      (n : ℕ) (r : BatchApplyResult) → Keeps env (Sound env F) (retry_rounds env n r)
  unfolding retry_rounds
  retry_rounds-Sound zero r = flag_remaining-Sound r
  retry_rounds-Sound (suc n) r =
      Ensures-bind (λ _. Sound env F) _ _ fetch_deferred-Sound
        (λ waiting. Keeps-if (is_empty waiting) _ _ (Keeps-pure r) (
          Ensures-bind (λ _. Sound env F) _ _
            (retry_round-Sound (record { progress = false; result = r }) waiting)
            (λ round.
              Keeps-elim round.progress _ _ (retry_rounds-Sound n round.result)
                (flag_remaining-Sound round.result))))

module _ {J : Type 0} (env : Env J) (laws : IsSerde env.serde) where
  IsKnown-of_IsSettled :
      (i : String) (r : ApplyResult) (db : Db J) → IsSettled i r db → IsKnown i db
  IsKnown-of_IsSettled i r db h = ground arith

  -- An event that was taken is known, and what was stable stays.
  apply_remote_event-IsKnown :
      (F : Db J → Type 0) (stable : IsStable F) (e : ItemEvent)
      → Ensures env
          (Sound env F)
          (apply_remote_event env e)
          (λ _. Sound env (λ db. F db × IsKnown e.event_id db))
  apply_remote_event-IsKnown F stable e =
      Ensures-weaken (λ db (h, f). ((h, f), h))
        (λ r db ((h, f), (_, s)). (h, (f, IsKnown-of_IsSettled e.event_id r db s)))
        (Ensures-both (apply_remote_event-Sound env laws F stable e)
          (apply_remote_event-Settling env laws e))

  apply_events-AllKnown :
      (F : Db J → Type 0) (stable : IsStable F) (r : BatchApplyResult) (es : List ItemEvent)
      → Ensures env
          (Sound env F)
          (apply_events env r es)
          (λ _. Sound env (λ db. F db × AllKnown es db))
  unfolding apply_events
  apply_events-AllKnown F stable r [] = Ensures-pure r (λ db (h, f). (h, (f, tt)))
  apply_events-AllKnown F stable r (e ∷ es) =
      Ensures-bind (λ _. Sound env (λ db. F db × IsKnown e.event_id db)) _ _
        (apply_remote_event-IsKnown F stable e)
        (λ x.
          Ensures-weaken (λ db h. h) (λ b db (h, ((f, k), ks)). (h, (f, (k, ks))))
            (apply_events-AllKnown (λ db. F db × IsKnown e.event_id db)
              (IsStable-pair stable (IsKnown-IsStable e.event_id)) (count_result e.item_id x r) es))

  -- A batch of remote events that goes through without an error keeps the projection consistent,
  -- and every event of it is known at the end, the retries of deferred events included.
  pub apply_remote_event_batch-AllKnown :
      (es : List ItemEvent)
      → Ensures env
          (IsConsistent env)
          (apply_remote_event_batch env es)
          (λ _. Sound env (AllKnown es))
  unfolding apply_remote_event_batch retry_deferred_events
  apply_remote_event_batch-AllKnown es =
      Ensures-bind (λ _. Sound env (AllKnown es)) _ _
        (Ensures-weaken (λ db h. (h, tt)) (λ r db (h, (_, k)). (h, k))
          (apply_events-AllKnown (λ _. Unit) IsStable-unit no_result es))
        (λ r.
          retry_rounds-Sound env laws (AllKnown es) (AllKnown-IsStable es) max_deferred_retry_rounds
            r)
