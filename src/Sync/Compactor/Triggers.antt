-- ===== src/Sync/Compactor/Triggers.antt =====
-- The triggers of `needs_compaction` in purr-sync/src/compactor.rs.
use clipkitty.Base.{
  ℕ, suc, ℤ, pos, ◌+◌, ◌^◌, ◌<◌, ltb, none, some, false, refl, ap, ◌∙◌, pos_part, neg_part, sub_ℕ,
  leb_ℤ, leb_ℤ-sub_i64, ◌≡◌, Bool, not, ◌&&◌, ◌||◌, ◌==◌, leb, String, Option, arith,
}
use clipkitty.Sync.Types.{ItemAggregate, tombstoned}
use clipkitty.Sync.Event.{ItemSnapshot, ok}
use clipkitty.Sync.Db.{Env, World}
use clipkitty.Sync.Monad.{IsQuiet, pure, now, read, exec, statement, continue, ◌>>=◌}
use clipkitty.Sync.Store.{
  count_uncompacted_events, uncompacted_payload_size, oldest_uncompacted_event_time, fetch_snapshot,
}
use clipkitty.Sync.Compactor.{
  compaction_event_threshold, compaction_payload_threshold, is_old, is_old_tombstone,
  needs_compaction, needs_compaction_by_size, needs_compaction_by_age,
}

-- The time was at least so many seconds before another.
abbrev pub is_aged : ℕ → ℕ → Option ℤ → Bool
is_aged seconds time none = false
is_aged seconds time (some then) = leb_ℤ then (sub_ℕ time seconds)

abbrev pub deletion_of : Option ItemSnapshot → Option ℤ
deletion_of none = none
deletion_of (some s) = elim s.aggregate [
  | ItemAggregate.live _ ↦ none
  | tombstoned t ↦ some t.deleted_at_unix
]

-- The age at a time from 1970 on is an `i64`.
abbrev pub HasAge : ℕ → Option ℤ → Type 0
HasAge time none = time < 2 ^ 63
HasAge time (some then) = (time + neg_part then < 2 ^ 63) × (pos_part then < 2 ^ 63)

-- Thirty-two events, 128 KB, an event of seven days ago, or a deletion of thirty days ago.
abbrev pub is_due : ℕ → ℕ → Option ℤ → Option ItemSnapshot → ℕ → Bool
is_due count size oldest snapshot time =
    not (count == 0)
    && (leb 32 count
        || leb 131072 size
        || is_aged 604800 time oldest
        || is_aged 2592000 time (deletion_of snapshot))

is_old-is_aged :
    (time : ℕ) (oldest : Option ℤ)
    → HasAge time oldest
    → is_old (pos time) oldest ≡ is_aged 604800 time oldest
unfolding is_old
is_old-is_aged time none h = refl
is_old-is_aged time (some t) h = leb_ℤ-sub_i64 604800 time t h.0 h.1

tombstone-is_aged :
    (time count : ℕ) (snapshot : Option ItemSnapshot)
    → HasAge time (deletion_of snapshot)
    → is_old_tombstone (pos time) count snapshot
      ≡ (is_aged 2592000 time (deletion_of snapshot) && ltb 0 count)
unfolding is_old_tombstone
tombstone-is_aged time count none h = refl
tombstone-is_aged time count (some s) h = by_aggregate s.aggregate h
  where
    by_aggregate :
        (a : ItemAggregate)
        → HasAge time (deletion_of (some (record s { aggregate = a })))
        → is_old_tombstone (pos time) count (some (record s { aggregate = a }))
          ≡ (is_aged 2592000 time (deletion_of (some (record s { aggregate = a }))) && ltb 0 count)
    by_aggregate (ItemAggregate.live l) h = refl
    by_aggregate (tombstoned t) h =
        ap (λ b. b && ltb 0 count) (leb_ℤ-sub_i64 2592000 time t.deleted_at_unix h.0 h.1)

module _ {J : Type 0} (env : Env J) where
  needs_compaction-tests :
      (i : String) (w : World J) (count size : ℕ) (oldest : Option ℤ)
      (snapshot : Option ItemSnapshot)
      → IsQuiet env
      → (count_uncompacted_events env i w).0 ≡ ok count
      → (uncompacted_payload_size env i w).0 ≡ ok size
      → (oldest_uncompacted_event_time env i w).0 ≡ ok oldest
      → (fetch_snapshot env i w).0 ≡ ok snapshot
      → (needs_compaction env i w).0
        ≡ ok (
            not (count == 0)
            && (leb compaction_event_threshold count
                || leb compaction_payload_threshold size
                || is_old (env.clock (suc (suc w.ticks))) oldest
                || is_old_tombstone (env.clock (suc (suc w.ticks))) count snapshot))
  unfolding needs_compaction needs_compaction_by_size needs_compaction_by_age
      count_uncompacted_events uncompacted_payload_size oldest_uncompacted_event_time fetch_snapshot
      read exec statement now pure ◌>>=◌ continue
  needs_compaction-tests i w count size oldest snapshot quiet c s o f = ground (
    arith,
    quiet w.ticks,
    quiet (suc w.ticks),
    quiet (suc (suc w.ticks)),
    quiet (suc (suc (suc w.ticks))),
    quiet (suc (suc (suc (suc w.ticks)))),
  )

  -- Where no statement fails, the four queries give a count, a size, a time and a snapshot, and the
  -- clock shows at the third step a time at which the ages are within the numbers of 64 bits, an item
  -- needs a compaction exactly when it has uncompacted events, and these are at least 32, or have at
  -- least 128 * 1024 characters, or the oldest was recorded at least seven days before, or the item
  -- was deleted at least thirty days before.
  pub needs_compaction-is_due :
      (i : String) (w : World J) (count size time : ℕ) (oldest : Option ℤ)
      (snapshot : Option ItemSnapshot)
      → IsQuiet env
      → (count_uncompacted_events env i w).0 ≡ ok count
      → (uncompacted_payload_size env i w).0 ≡ ok size
      → (oldest_uncompacted_event_time env i w).0 ≡ ok oldest
      → (fetch_snapshot env i w).0 ≡ ok snapshot
      → env.clock (suc (suc w.ticks)) ≡ pos time
      → HasAge time oldest
      → HasAge time (deletion_of snapshot)
      → (needs_compaction env i w).0 ≡ ok (is_due count size oldest snapshot time)
  needs_compaction-is_due i w count size time oldest snapshot quiet c s o f shows h k =
      let tests = needs_compaction-tests i w count size oldest snapshot quiet c s o f in
      let by_age = is_old-is_aged time oldest h in
      let by_deletion = tombstone-is_aged time count snapshot k in
      tests ∙ rw (shows, by_age, by_deletion) (ground arith)
