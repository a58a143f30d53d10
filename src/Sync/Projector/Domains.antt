-- ===== src/Sync/Projector/Domains.antt =====
-- The version counters of the projector: which domain a payload writes, and which counters move.
use clipkitty.Base.{
  ℕ, ◌≡◌, Bool, true, false, ◌||◌, String, ℤ, Option, none, some, List, [], ◌∷◌, arith,
  saturating_add, if◌then◌else◌,
}
use clipkitty.Sync.Types.{
  VersionVector, VersionDomain, content, bookmark, existence, touch, metadata, ItemEventPayload,
  item_created, text_edited, bookmark_set, bookmark_cleared, item_deleted, item_touched,
  link_metadata_updated, image_description_updated, unknown, ItemAggregate, live, tombstoned,
  ProjectionDelta, applied,
}
use clipkitty.Sync.Projector.{apply_event}

abbrev pub versions_of : ItemAggregate → VersionVector
versions_of (live l) = l.versions
versions_of (tombstoned t) = t.versions

abbrev pub counter : VersionDomain → VersionVector → ℕ
counter content v = v.content
counter bookmark v = v.bookmark
counter existence v = v.existence
counter touch v = v.touch
counter metadata v = v.metadata

-- The domain that a payload writes, with the base version it carries.
abbrev pub written : ItemEventPayload → Option (VersionDomain × ℕ)
written (item_created _) = none
written (text_edited _ base) = some (content, base)
written (bookmark_set base) = some (bookmark, base)
written (bookmark_cleared base) = some (bookmark, base)
written (item_deleted base) = some (existence, base)
written (item_touched _ base) = some (touch, base)
written (link_metadata_updated _ base) = some (metadata, base)
written (image_description_updated _ base) = some (content, base)
written (unknown _ _) = none

abbrev pub same_domain : VersionDomain → VersionDomain → Bool
same_domain content content = true
same_domain bookmark bookmark = true
same_domain existence existence = true
same_domain touch touch = true
same_domain metadata metadata = true
same_domain _ _ = false

abbrev pub is_listed : VersionDomain → List VersionDomain → Bool
is_listed d [] = false
is_listed d (e ∷ es) = same_domain d e || is_listed d es

-- When an event applies to an existing aggregate, the counter of a domain in the delta's list of
-- bumped domains goes up by one (and stays at the largest u64), and every other counter stays.
pub apply_event-bumped_domains :
    (h : String → String) (now : ℤ) (a : ItemAggregate) (p : ItemEventPayload)
    (delta : ProjectionDelta) (d : VersionDomain)
    → apply_event h now (some a) p ≡ applied delta
    → counter d (versions_of delta.new_aggregate) ≡ (
        if is_listed d delta.bumped_domains
        then saturating_add (counter d (versions_of a)) 1
        else counter d (versions_of a))
unfolding apply_event
apply_event-bumped_domains h now (live l) (item_created s) delta d e = ground arith
apply_event-bumped_domains h now (live l) (text_edited t b) delta content e = ground arith
apply_event-bumped_domains h now (live l) (text_edited t b) delta _ e = ground arith
apply_event-bumped_domains h now (live l) (bookmark_set b) delta content e = ground arith
apply_event-bumped_domains h now (live l) (bookmark_set b) delta _ e = ground arith
apply_event-bumped_domains h now (live l) (bookmark_cleared b) delta content e = ground arith
apply_event-bumped_domains h now (live l) (bookmark_cleared b) delta _ e = ground arith
apply_event-bumped_domains h now (live l) (item_deleted b) delta content e = ground arith
apply_event-bumped_domains h now (live l) (item_deleted b) delta _ e = ground arith
apply_event-bumped_domains h now (live l) (item_touched t b) delta content e = ground arith
apply_event-bumped_domains h now (live l) (item_touched t b) delta _ e = ground arith
apply_event-bumped_domains h now (live l) (link_metadata_updated m b) delta content e = ground arith
apply_event-bumped_domains h now (live l) (link_metadata_updated m b) delta _ e = ground arith
apply_event-bumped_domains h now (live l) (image_description_updated t b) delta content e =
    ground arith
apply_event-bumped_domains h now (live l) (image_description_updated t b) delta _ e = ground arith
apply_event-bumped_domains h now (live l) (unknown t b) delta d e = ground arith
apply_event-bumped_domains h now (tombstoned t) p delta d e = ground arith
