-- ===== src/Sync/Replay/Batch.antt =====
-- The batch and retry loops of purr-sync/src/replay.rs.
use clipkitty.Base.{
  ℕ, zero, suc, ◌+◌, ◌-◌, ltb, Bool, true, false, ◌||◌, String, List, [], ◌∷◌, ◌++◌, is_empty,
  if◌then◌else◌,
}
use clipkitty.Sync.Types.{
  ApplyResult, applied, ignored, deferred, forked, ForkPlan, DownloadBatchOutcome,
  full_resync_required, partial_failure,
}
use clipkitty.Sync.Event.{ItemEvent}
use clipkitty.Sync.Db.{Env}
use clipkitty.Sync.Monad.{Sync, pure, ◌>>=◌, ◌>>◌}
use clipkitty.Sync.Store.{
  append_remote_event, mark_event_applied, remove_deferred_event, fetch_all_deferred_events,
  count_deferred_events, set_dirty_flag, flag_needs_full_resync,
}
use clipkitty.Sync.Replay.{project, store_aggregate, apply_remote_event}

abbrev pub max_deferred_retry_rounds : ℕ
max_deferred_retry_rounds = 3

pub record BatchApplyResult : Type 0 where
  pub events_applied : ℕ
  pub events_ignored : ℕ
  pub events_deferred : ℕ
  pub events_forked : ℕ
  pub snapshots_applied : ℕ
  pub needs_full_resync : Bool
  pub materialization_failures : ℕ
  pub fork_plans : List (String × ForkPlan)

abbrev pub no_result : BatchApplyResult
no_result = record {
  events_applied = 0;
  events_ignored = 0;
  events_deferred = 0;
  events_forked = 0;
  snapshots_applied = 0;
  needs_full_resync = false;
  materialization_failures = 0;
  fork_plans = [];
}

unfoldable pub download_outcome : BatchApplyResult → ℕ → DownloadBatchOutcome
download_outcome r snapshots_applied =
    if r.needs_full_resync
    then full_resync_required
    else if ltb 0 r.materialization_failures
    then partial_failure r.events_applied r.materialization_failures true
    else DownloadBatchOutcome.applied r.events_applied snapshots_applied

-- The match on the result of a new event.
unfoldable pub count_result : String → ApplyResult → BatchApplyResult → BatchApplyResult
count_result item_id (applied _) r = record r { events_applied = r.events_applied + 1 }
count_result item_id (ignored _) r = record r { events_ignored = r.events_ignored + 1 }
count_result item_id (deferred _) r = record r { events_deferred = r.events_deferred + 1 }
count_result item_id (forked plan) r = record r {
  events_forked = r.events_forked + 1;
  fork_plans = r.fork_plans ++ (item_id, plan) ∷ [];
}

-- The counters after a retry; `saturating_sub` is the subtraction that stops at 0.
unfoldable pub count_retry : String → ApplyResult → BatchApplyResult → BatchApplyResult
count_retry item_id (applied _) r = record r {
  events_applied = r.events_applied + 1;
  events_deferred = r.events_deferred - 1;
}
count_retry item_id (ignored _) r = record r {
  events_ignored = r.events_ignored + 1;
  events_deferred = r.events_deferred - 1;
}
count_retry item_id (deferred _) r = r
count_retry item_id (forked plan) r = record r {
  events_forked = r.events_forked + 1;
  events_deferred = r.events_deferred - 1;
  fork_plans = r.fork_plans ++ (item_id, plan) ∷ [];
}

-- `progress = true` in every arm but the last.
unfoldable pub makes_progress : ApplyResult → Bool
makes_progress (deferred _) = false
makes_progress _ = true

pub record Round : Type 0 where
  pub progress : Bool
  pub result : BatchApplyResult

abbrev pub counted : Round → ItemEvent → ApplyResult → Round
counted round event result = record {
  progress = round.progress || makes_progress result;
  result = count_retry event.item_id result round.result;
}

module _ {J : Type 0} (env : Env J) where
  -- The match on the result in `retry_deferred_events`.
  unfoldable pub store_retry : ItemEvent → ApplyResult → Sync J (Unit {0})
  store_retry event (applied delta) = do
    remove_deferred_event env event.event_id
    append_remote_event env event
    mark_event_applied env event.event_id
    store_aggregate env event delta.new_aggregate
  store_retry event (ignored reason) = do
    remove_deferred_event env event.event_id
    mark_event_applied env event.event_id
  store_retry event (deferred reason) = pure tt
  store_retry event (forked plan) = do
    remove_deferred_event env event.event_id
    append_remote_event env event
    mark_event_applied env event.event_id

  unfoldable pub retry_event : ItemEvent → Sync J ApplyResult
  retry_event event = do result ← project env event; store_retry event result; pure result

  unfoldable pub retry_round : Round → List ItemEvent → Sync J Round
  retry_round round [] = pure round
  retry_round round (event ∷ rest) = do
    result ← retry_event event
    retry_round (counted round event result) rest

  -- The end of `retry_deferred_events`: events that remain ask for a full resync.
  unfoldable pub flag_remaining : BatchApplyResult → Sync J BatchApplyResult
  flag_remaining r = do
    count ← count_deferred_events env
    if ltb 0 count
        then (set_dirty_flag env flag_needs_full_resync true
            >> pure (record r { needs_full_resync = true }))
        else pure r

  -- The rounds that are left.
  unfoldable pub retry_rounds : ℕ → BatchApplyResult → Sync J BatchApplyResult
  retry_rounds zero r = flag_remaining r
  retry_rounds (suc n) r = do
    waiting ← fetch_all_deferred_events env
    if is_empty waiting then pure r else (do
      round ← retry_round (record { progress = false; result = r }) waiting
      elim round.progress [
        | true ↦ retry_rounds n round.result
        | false ↦ flag_remaining round.result
      ])

  unfoldable pub retry_deferred_events : BatchApplyResult → Sync J BatchApplyResult
  retry_deferred_events r = retry_rounds max_deferred_retry_rounds r

  unfoldable pub apply_events : BatchApplyResult → List ItemEvent → Sync J BatchApplyResult
  apply_events r [] = pure r
  apply_events r (event ∷ rest) = do
    result ← apply_remote_event env event
    apply_events (count_result event.item_id result r) rest

  unfoldable pub apply_remote_event_batch : List ItemEvent → Sync J BatchApplyResult
  apply_remote_event_batch events = do r ← apply_events no_result events; retry_deferred_events r
