-- ===== src/Sync/Replay/Waiting.antt =====
-- The result of `apply_remote_event_batch` and the table of deferred events that it leaves
-- (purr-sync/src/replay.rs).
use clipkitty.Base.{
  ℕ, zero, suc, ◌≡◌, refl, sym, ap, ◌∙◌, ltb, Bool, true, false, String, List, [], ◌∷◌, length, map,
  is_empty, arith, if◌then◌else◌,
}
use clipkitty.Sync.Types.{ApplyResult, DownloadBatchOutcome, full_resync_required}
use clipkitty.Sync.Event.{IsSerde, ItemEvent, ok}
use clipkitty.Sync.Db.{Db, Env, World}
use clipkitty.Sync.Monad.{
  Ensures, Ensures-pure, Ensures-read, Ensures-write, Ensures-bind, Ensures-then, Ensures-weaken,
  Ensures-run, IsQuiet, Sync, pure, ok-injective, ◌>>◌, Ensures-given,
}
use clipkitty.Base.Table.{order_by, insert_by}
use clipkitty.Sync.Store.{
  fetch_all_deferred_events, count_deferred_events, set_dirty_flag, flag_needs_full_resync,
  deferred_by_time, event_of_deferred,
}
use clipkitty.Sync.Replay.Batch.{
  BatchApplyResult, Round, counted, count_result, count_retry, no_result, retry_round,
  flag_remaining, retry_rounds, retry_deferred_events, apply_events, apply_remote_event_batch,
  max_deferred_retry_rounds, download_outcome,
}
use clipkitty.Sync.Replay.Consistent.{IsConsistent}
use clipkitty.Sync.Replay.BatchKeeps.{retry_event-Sound}
use clipkitty.Sync.Replay.Stable.{Sound, IsStable-unit, apply_remote_event-Sound}

abbrev pub requires_resync : DownloadBatchOutcome → Bool
requires_resync full_resync_required = true
requires_resync _ = false

requires_resync-download_outcome :
    (r : BatchApplyResult) (n : ℕ) → requires_resync (download_outcome r n) ≡ r.needs_full_resync
unfolding download_outcome
requires_resync-download_outcome r n = ground arith

count_result-needs_full_resync :
    (i : String) (x : ApplyResult) (r : BatchApplyResult)
    → (count_result i x r).needs_full_resync ≡ r.needs_full_resync
unfolding count_result
count_result-needs_full_resync i x r = ground arith

count_retry-needs_full_resync :
    (i : String) (x : ApplyResult) (r : BatchApplyResult)
    → (count_retry i x r).needs_full_resync ≡ r.needs_full_resync
unfolding count_retry
count_retry-needs_full_resync i x r = ground arith

module _ {A B : Type 0} (f : A → B) (le : A → A → Bool) where
  insert_by-nonempty : (x : A) (ys : List A) → is_empty (map f (insert_by le x ys)) ≡ false
  unfolding insert_by
  insert_by-nonempty x [] = refl
  insert_by-nonempty x (y ∷ ys) = ground arith

  none_left : (rows : List A) → is_empty (map f (order_by le rows)) ≡ true → length rows ≡ 0
  unfolding order_by
  none_left [] e = refl
  none_left (x ∷ xs) e = absurd (ground (arith, insert_by-nonempty x (order_by le xs)))

module _ {J : Type 0} (env : Env J) (laws : IsSerde env.serde) where
  abbrev Good : Db J → Type 0
  Good = Sound env (λ _. Unit {0})

  -- A result that does not ask for a full resync yet.
  abbrev Quiet : BatchApplyResult → Db J → Type 0
  Quiet r db = Good db × (r.needs_full_resync ≡ false)

  -- A result that asks for one exactly when an event waits.
  abbrev pub Asks : BatchApplyResult → Db J → Type 0
  Asks r db = Good db × (r.needs_full_resync ≡ ltb 0 (length db.deferred))

  apply_events-Quiet :
      (r : BatchApplyResult) (es : List ItemEvent)
      → r.needs_full_resync ≡ false
      → Ensures env Good (apply_events env r es) Quiet
  unfolding apply_events
  apply_events-Quiet r [] n = Ensures-pure r (λ db h. (h, n))
  apply_events-Quiet r (e ∷ es) n =
      Ensures-bind (λ _. Good) _ _ (apply_remote_event-Sound env laws (λ _. Unit) IsStable-unit e)
        (λ x.
          apply_events-Quiet (count_result e.item_id x r) es
            (count_result-needs_full_resync e.item_id x r ∙ n))

  retry_round-Quiet :
      (round : Round) (es : List ItemEvent)
      → round.result.needs_full_resync ≡ false
      → Ensures env Good (retry_round env round es) (λ d. Quiet d.result)
  unfolding retry_round
  retry_round-Quiet round [] n = Ensures-pure round (λ db h. (h, n))
  retry_round-Quiet round (e ∷ es) n =
      Ensures-bind (λ _. Good) _ _ (retry_event-Sound env laws (λ _. Unit) IsStable-unit e)
        (λ x.
          retry_round-Quiet (counted round e x) es
            (count_retry-needs_full_resync e.item_id x round.result ∙ n))

  flag-Asks :
      (r : BatchApplyResult) (b : Bool)
      → r.needs_full_resync ≡ false
      → Ensures env
          (λ db. Good db × (b ≡ ltb 0 (length db.deferred)))
          (if b
            then (set_dirty_flag env flag_needs_full_resync true
                >> pure (record r { needs_full_resync = true }))
            else pure r)
          Asks
  unfolding set_dirty_flag
  flag-Asks r true n =
      Ensures-then (λ db. Good db × (true ≡ ltb 0 (length db.deferred))) _ _
        (Ensures-write env _ (λ t db h. h)) (Ensures-pure _ (λ db h. h))
  flag-Asks r false n = Ensures-pure r (λ db (h, e). (h, n ∙ e))

  flag_remaining-Asks :
      (r : BatchApplyResult)
      → r.needs_full_resync ≡ false
      → Ensures env Good (flag_remaining env r) Asks
  unfolding flag_remaining count_deferred_events
  flag_remaining-Asks r n =
      Ensures-bind (λ c db. Good db × (c ≡ length db.deferred)) _ _
        (Ensures-read env _ (λ db h. (_, refl)) (λ db c h e. (h, sym (ok-injective e))))
        (λ c.
          Ensures-weaken (λ db (h, e). (h, ap (ltb 0) e)) (λ a db h. h) (flag-Asks r (ltb 0 c) n))

  retry_or_stop :
      (n : ℕ) (progress : Bool) (r : BatchApplyResult)
      → Ensures env Good (retry_rounds env n r) Asks
      → Ensures env Good (flag_remaining env r) Asks
      → Ensures env Good
          (elim progress [ true ↦ retry_rounds env n r | false ↦ flag_remaining env r ])
          Asks
  retry_or_stop n true r again stop = again
  retry_or_stop n false r again stop = stop

  either-Asks :
      (b : Bool) (r : BatchApplyResult) (m : Sync J BatchApplyResult)
      → r.needs_full_resync ≡ false
      → Ensures env Good m Asks
      → Ensures env
          (λ db. Good db × (b ≡ true → length db.deferred ≡ 0))
          (if b then pure r else m)
          Asks
  either-Asks true r m n h = Ensures-pure r (λ db (g, e). (g, rw (e refl) n))
  either-Asks false r m n h = Ensures-weaken (λ db (g, e). g) (λ a db x. x) h

  retry_rounds-Asks :
      (n : ℕ) (r : BatchApplyResult)
      → r.needs_full_resync ≡ false
      → Ensures env Good (retry_rounds env n r) Asks
  unfolding retry_rounds fetch_all_deferred_events
  retry_rounds-Asks zero r e = flag_remaining-Asks r e
  retry_rounds-Asks (suc n) r e =
      Ensures-bind (λ waiting db. Good db × (is_empty waiting ≡ true → length db.deferred ≡ 0)) _ _
        (Ensures-read env _ (λ db h. (_, refl))
          (λ db waiting h q. (
            h,
            λ none.
                none_left (event_of_deferred env) deferred_by_time db.deferred
                  (ap is_empty (ok-injective q) ∙ none),
          )))
        (λ waiting. either-Asks (is_empty waiting) r _ e (
          Ensures-bind (λ d. Quiet d.result) _ _
            (retry_round-Quiet (record { progress = false; result = r }) waiting e)
            (λ round. Ensures-given (λ q.
              retry_or_stop n round.progress round.result (retry_rounds-Asks n round.result q)
                (flag_remaining-Asks round.result q)))))

  -- Where no statement fails and the serialiser reads back what it wrote, a batch on a consistent
  -- database ends with a result that asks for a full resync exactly when an event is left in the
  -- table of deferred events, and its download outcome is then that a full resync is required.
  pub apply_remote_event_batch-asks :
      (es : List ItemEvent) (w : World J) (n : ℕ)
      → IsQuiet env
      → IsConsistent env w.db
      → let (result, w') = apply_remote_event_batch env es w in
        (r : BatchApplyResult) × (result ≡ ok r)
        × (r.needs_full_resync ≡ ltb 0 (length w'.db.deferred))
        × (requires_resync (download_outcome r n) ≡ ltb 0 (length w'.db.deferred))
  unfolding apply_remote_event_batch retry_deferred_events
  apply_remote_event_batch-asks es w n quiet good =
      let (r, done, (_, asks)) =
        Ensures-run
          (Ensures-bind Quiet _ _ (apply_events-Quiet no_result es refl)
            (λ r. Ensures-given (λ q. retry_rounds-Asks max_deferred_retry_rounds r q)))
          quiet w (good, tt) in
      (r, done, asks, requires_resync-download_outcome r n ∙ asks)
