-- ===== src/Sync/Projector/Outcome.antt =====
-- Which outcome the projector returns, in terms of the version counters.
use clipkitty.Base.{
  ℕ, ◌<◌, ◌≡◌, Bool, true, false, refl, ◌⊎◌, String, ℤ, Option, none, some, arith, u64_max,
  saturating_add_lem,
}
use clipkitty.Sync.Types.{
  VersionDomain, content, bookmark, touch, metadata, VersionVector, ItemEventPayload, item_created,
  text_edited, bookmark_set, bookmark_cleared, item_deleted, item_touched, link_metadata_updated,
  image_description_updated, unknown, LiveItemState, TombstoneState, ItemAggregate, live,
  tombstoned, ProjectionDelta, ApplyResult, applied, ignored, deferred, forked, stale_version,
  future_version,
}
use clipkitty.Sync.Projector.{apply_event}
use clipkitty.Sync.Projector.Domains.{versions_of, counter, written}

abbrev pub is_applied : ApplyResult → Bool
is_applied (applied _) = true
is_applied _ = false

abbrev pub is_deferred : ApplyResult → Bool
is_deferred (deferred _) = true
is_deferred _ = false

-- The text that a fork preserves.
abbrev pub forked_text : ApplyResult → Option String
forked_text (forked plan) = some plan.forked_snapshot.content_text
forked_text _ = none

abbrev pub text_of : ItemAggregate → Option String
text_of (live l) = some l.snapshot.content_text
text_of (tombstoned _) = none

abbrev pub applied_text : ApplyResult → Option String
applied_text (applied delta) = text_of delta.new_aggregate
applied_text _ = none

-- What becomes of an event from a stale base: a text edit is kept in a fork, all else is dropped.
abbrev pub IsStaleOutcome : ItemEventPayload → VersionDomain → ℕ → ℕ → ApplyResult → Type 0
IsStaleOutcome (text_edited new_text _) d base current r = forked_text r ≡ some new_text
IsStaleOutcome _ d base current r = r ≡ ignored (stale_version d base current)

-- The base version stands before, after or at the current counter of its domain, and the outcome
-- is the one of the case.
abbrev pub BaseVerdict : ItemEventPayload → VersionDomain → ℕ → ℕ → ApplyResult → Type 0
BaseVerdict p d base current r =
    ((base < current) × IsStaleOutcome p d base current r)
    ⊎ ((current < base) × (r ≡ deferred (future_version d base current)))
    ⊎ ((base ≡ current) × (is_applied r ≡ true))

abbrev pub AllCounters : Option ItemAggregate → (VersionVector → Type 0) → Type 0
AllCounters none P = Unit
AllCounters (some a) P = P (versions_of a)

module _ (h : String → String) (now : ℤ) where
  -- On a live item, for an event that carries a base version: it stands before, after or at the
  -- current counter of its domain; before it, a text edit is forked with its text and any other
  -- event is ignored as stale; after it, the event is deferred with both numbers; at it, the event
  -- applies.
  pub apply_event-by_base :
      (l : LiveItemState) (p : ItemEventPayload) (d : VersionDomain) (base : ℕ)
      → written p ≡ some (d, base)
      → BaseVerdict p d base (counter d l.versions) (apply_event h now (some (live l)) p)
  unfolding apply_event
  apply_event-by_base l (text_edited t b) d base e = ground arith
  apply_event-by_base l _ d base e = ground arith

  -- On a tombstone no event is applied and none is deferred.
  pub apply_event-tombstoned :
      (t : TombstoneState) (p : ItemEventPayload)
      → (is_applied (apply_event h now (some (tombstoned t)) p) ≡ false)
        × (is_deferred (apply_event h now (some (tombstoned t)) p) ≡ false)
  unfolding apply_event
  apply_event-tombstoned t (text_edited new_text b) = (refl, refl)
  apply_event-tombstoned t _ = (refl, refl)

  -- A text edit of an existing item becomes the text of the item, or stands in a fork, or is
  -- deferred, and then its base is ahead of the content counter of the item.
  pub apply_event-keeps_text :
      (a : ItemAggregate) (t : String) (base : ℕ)
      → (applied_text (apply_event h now (some a) (text_edited t base)) ≡ some t)
        ⊎ (forked_text (apply_event h now (some a) (text_edited t base)) ≡ some t)
        ⊎ ((is_deferred (apply_event h now (some a) (text_edited t base)) ≡ true)
            × (counter content (versions_of a) < base))
  unfolding apply_event
  apply_event-keeps_text (live l) t base = ground arith
  apply_event-keeps_text (tombstoned x) t base = ground arith

  -- An event that applied does not apply again to what it produced, where no counter of the item
  -- had reached the largest u64.
  pub apply_event-not_twice :
      (a : Option ItemAggregate) (p : ItemEventPayload) (delta : ProjectionDelta)
      → ((d : VersionDomain) → AllCounters a (λ v. counter d v < u64_max))
      → apply_event h now a p ≡ applied delta
      → is_applied (apply_event h now (some delta.new_aggregate) p) ≡ false
  unfolding apply_event
  apply_event-not_twice none (item_created s) delta small e = ground arith
  apply_event-not_twice (some (live l)) (item_created s) delta small e =
      ground (arith, small touch, saturating_add_lem l.versions.touch)
  apply_event-not_twice none (text_edited t b) delta small e = ground arith
  apply_event-not_twice (some (live l)) (text_edited t b) delta small e =
      ground (arith, small content, saturating_add_lem l.versions.content)
  apply_event-not_twice none (bookmark_set b) delta small e = ground arith
  apply_event-not_twice (some (live l)) (bookmark_set b) delta small e =
      ground (arith, small bookmark, saturating_add_lem l.versions.bookmark)
  apply_event-not_twice none (bookmark_cleared b) delta small e = ground arith
  apply_event-not_twice (some (live l)) (bookmark_cleared b) delta small e =
      ground (arith, small bookmark, saturating_add_lem l.versions.bookmark)
  apply_event-not_twice none (item_deleted b) delta small e = ground arith
  apply_event-not_twice (some (live l)) (item_deleted b) delta small e =
      ground (arith, small touch, saturating_add_lem l.versions.touch)
  apply_event-not_twice none (item_touched t b) delta small e = ground arith
  apply_event-not_twice (some (live l)) (item_touched t b) delta small e =
      ground (arith, small touch, saturating_add_lem l.versions.touch)
  apply_event-not_twice none (link_metadata_updated m b) delta small e = ground arith
  apply_event-not_twice (some (live l)) (link_metadata_updated m b) delta small e =
      ground (arith, small metadata, saturating_add_lem l.versions.metadata)
  apply_event-not_twice none (image_description_updated t b) delta small e = ground arith
  apply_event-not_twice (some (live l)) (image_description_updated t b) delta small e =
      ground (arith, small content, saturating_add_lem l.versions.content)
  apply_event-not_twice none (unknown t b) delta small e = ground arith
  apply_event-not_twice (some (live l)) (unknown t b) delta small e =
      ground (arith, small touch, saturating_add_lem l.versions.touch)
  apply_event-not_twice (some (tombstoned t)) p delta small e = ground arith
