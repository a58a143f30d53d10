-- ===== src/Sync/Projector.antt =====
-- purr-sync/src/projector.rs: one event against the aggregate of its item. The hash of a text
-- (`util::content_hash`, a hasher of the standard library) and the time that `Utc::now()` returns
-- are arguments.
pub mod Domains
pub mod Outcome
pub mod Commute
use clipkitty.Base.{
  ℕ, ℤ, Bool, true, false, String, Option, none, some, List, [], ◌∷◌, ltb, saturating_add, is_some,
  ◌++◌, if◌then◌else◌,
}
use clipkitty.Sync.Types.{
  VersionVector, VersionDomain, LinkMetadataSnapshot, TypeSpecificData, ItemSnapshotData,
  ItemEventPayload, LiveItemState, TombstoneState, ItemAggregate, ProjectionDelta, ForkPlan,
  ApplyResult, applied, ignored, deferred, forked, stale_version, operation_on_tombstone,
  already_applied, unknown_payload, missing_item, future_version, live, tombstoned,
}

unfoldable pub apply_item_created : Option ItemAggregate → ItemSnapshotData → ApplyResult
apply_item_created aggregate snapshot =
    if is_some aggregate
    then ignored already_applied
    else applied (record {
      new_aggregate = live (record {
        snapshot = snapshot;
        versions = record {
          content = 1;
          bookmark = (if snapshot.is_bookmarked then 1 else 0);
          existence = 1;
          touch = 1;
          metadata = 1;
        };
      });
      bumped_domains =
          (VersionDomain.content ∷ VersionDomain.existence ∷ VersionDomain.touch
            ∷ VersionDomain.metadata ∷ [])
          ++ (if snapshot.is_bookmarked then VersionDomain.bookmark ∷ [] else []);
      read_model_dirty = true;
      index_dirty = true;
    })

-- `if let TypeSpecificData::Text { ref mut value } = … { *value = new_text }`.
unfoldable pub with_text : String → TypeSpecificData → TypeSpecificData
with_text new_text (TypeSpecificData.text value) = TypeSpecificData.text new_text
with_text new_text other = other

unfoldable pub with_link_metadata : LinkMetadataSnapshot → TypeSpecificData → TypeSpecificData
with_link_metadata m (TypeSpecificData.link url metadata) = TypeSpecificData.link url (some m)
with_link_metadata m other = other

unfoldable pub with_image_description : String → TypeSpecificData → TypeSpecificData
with_image_description d (TypeSpecificData.image bytes description animated) =
    TypeSpecificData.image bytes d animated
with_image_description d other = other

unfoldable pub fork_from_text_edit : (String → String) → ℤ → ItemAggregate → String → ApplyResult
unfolding with_text
fork_from_text_edit content_hash now (live l) new_text =
    let snap = l.snapshot in
    forked (record {
      forked_snapshot = record snap {
        content_text = new_text;
        content_hash = content_hash new_text;
        type_specific = with_text new_text snap.type_specific;
        timestamp_unix = now;
      };
      reason = "concurrent text edit conflict";
      forked_from = none;
    })
fork_from_text_edit content_hash now (tombstoned tomb) new_text = forked (record {
  forked_snapshot = record {
    content_type = tomb.content_type;
    content_text = new_text;
    content_hash = content_hash new_text;
    source_app = none;
    source_app_bundle_id = none;
    timestamp_unix = now;
    is_bookmarked = false;
    thumbnail_base64 = none;
    color_rgba = none;
    type_specific = TypeSpecificData.text new_text;
  };
  reason = "concurrent text edit conflict";
  forked_from = none;
})

unfoldable pub apply_text_edited :
    (String → String) → ℤ → Option ItemAggregate → String → ℕ → ApplyResult
unfolding with_text fork_from_text_edit
apply_text_edited content_hash now none new_text base = deferred missing_item
apply_text_edited content_hash now (some (tombstoned t)) new_text base =
    fork_from_text_edit content_hash now (tombstoned t) new_text
apply_text_edited content_hash now (some (live l)) new_text base =
    let current = l.versions.content in
    if ltb base current
    then fork_from_text_edit content_hash now (live l) new_text
    else if ltb current base
    then deferred (future_version VersionDomain.content base current)
    else applied (record {
      new_aggregate = live (record {
        snapshot = record (l.snapshot) {
          content_text = new_text;
          type_specific = with_text new_text l.snapshot.type_specific;
          content_hash = content_hash new_text;
        };
        versions = record (l.versions) { content = saturating_add l.versions.content 1 };
      });
      bumped_domains = VersionDomain.content ∷ [];
      read_model_dirty = true;
      index_dirty = true;
    })

unfoldable pub apply_bookmark_set : Option ItemAggregate → ℕ → ApplyResult
apply_bookmark_set none base = deferred missing_item
apply_bookmark_set (some (tombstoned t)) base = ignored operation_on_tombstone
apply_bookmark_set (some (live l)) base =
    let current = l.versions.bookmark in
    if ltb base current
    then ignored (stale_version VersionDomain.bookmark base current)
    else if ltb current base
    then deferred (future_version VersionDomain.bookmark base current)
    else applied (record {
      new_aggregate = live (record {
        snapshot = record (l.snapshot) { is_bookmarked = true };
        versions = record (l.versions) { bookmark = saturating_add l.versions.bookmark 1 };
      });
      bumped_domains = VersionDomain.bookmark ∷ [];
      read_model_dirty = true;
      index_dirty = false;
    })

unfoldable pub apply_bookmark_cleared : Option ItemAggregate → ℕ → ApplyResult
apply_bookmark_cleared none base = deferred missing_item
apply_bookmark_cleared (some (tombstoned t)) base = ignored operation_on_tombstone
apply_bookmark_cleared (some (live l)) base =
    let current = l.versions.bookmark in
    if ltb base current
    then ignored (stale_version VersionDomain.bookmark base current)
    else if ltb current base
    then deferred (future_version VersionDomain.bookmark base current)
    else applied (record {
      new_aggregate = live (record {
        snapshot = record (l.snapshot) { is_bookmarked = false };
        versions = record (l.versions) { bookmark = saturating_add l.versions.bookmark 1 };
      });
      bumped_domains = VersionDomain.bookmark ∷ [];
      read_model_dirty = true;
      index_dirty = false;
    })

unfoldable pub apply_item_deleted : ℤ → Option ItemAggregate → ℕ → ApplyResult
apply_item_deleted now none base = deferred missing_item
apply_item_deleted now (some (tombstoned t)) base = ignored operation_on_tombstone
apply_item_deleted now (some (live l)) base =
    let current = l.versions.existence in
    if ltb base current
    then ignored (stale_version VersionDomain.existence base current)
    else if ltb current base
    then deferred (future_version VersionDomain.existence base current)
    else applied (record {
      new_aggregate = tombstoned (record {
        deleted_at_unix = now;
        versions = record (l.versions) { existence = saturating_add l.versions.existence 1 };
        content_type = l.snapshot.content_type;
      });
      bumped_domains = VersionDomain.existence ∷ [];
      read_model_dirty = true;
      index_dirty = true;
    })

unfoldable pub apply_item_touched : Option ItemAggregate → ℤ → ℕ → ApplyResult
apply_item_touched none new_last_used base = deferred missing_item
apply_item_touched (some (tombstoned t)) new_last_used base = ignored operation_on_tombstone
apply_item_touched (some (live l)) new_last_used base =
    let current = l.versions.touch in
    if ltb base current
    then ignored (stale_version VersionDomain.touch base current)
    else if ltb current base
    then deferred (future_version VersionDomain.touch base current)
    else applied (record {
      new_aggregate = live (record {
        snapshot = record (l.snapshot) { timestamp_unix = new_last_used };
        versions = record (l.versions) { touch = saturating_add l.versions.touch 1 };
      });
      bumped_domains = VersionDomain.touch ∷ [];
      read_model_dirty = true;
      index_dirty = false;
    })

unfoldable pub apply_link_metadata_updated :
    Option ItemAggregate → LinkMetadataSnapshot → ℕ → ApplyResult
unfolding with_link_metadata
apply_link_metadata_updated none m base = deferred missing_item
apply_link_metadata_updated (some (tombstoned t)) m base = ignored operation_on_tombstone
apply_link_metadata_updated (some (live l)) m base =
    let current = l.versions.metadata in
    if ltb base current
    then ignored (stale_version VersionDomain.metadata base current)
    else if ltb current base
    then deferred (future_version VersionDomain.metadata base current)
    else applied (record {
      new_aggregate = live (record {
        snapshot = record (l.snapshot) {
          type_specific = with_link_metadata m l.snapshot.type_specific;
        };
        versions = record (l.versions) { metadata = saturating_add l.versions.metadata 1 };
      });
      bumped_domains = VersionDomain.metadata ∷ [];
      read_model_dirty = true;
      index_dirty = false;
    })

unfoldable pub apply_image_description_updated : Option ItemAggregate → String → ℕ → ApplyResult
unfolding with_image_description
apply_image_description_updated none d base = deferred missing_item
apply_image_description_updated (some (tombstoned t)) d base = ignored operation_on_tombstone
apply_image_description_updated (some (live l)) d base =
    let current = l.versions.content in
    if ltb base current
    then ignored (stale_version VersionDomain.content base current)
    else if ltb current base
    then deferred (future_version VersionDomain.content base current)
    else applied (record {
      new_aggregate = live (record {
        snapshot = record (l.snapshot) {
          content_text = d;
          type_specific = with_image_description d l.snapshot.type_specific;
        };
        versions = record (l.versions) { content = saturating_add l.versions.content 1 };
      });
      bumped_domains = VersionDomain.content ∷ [];
      read_model_dirty = true;
      index_dirty = true;
    })

unfoldable pub apply_event :
    (String → String) → ℤ → Option ItemAggregate → ItemEventPayload → ApplyResult
unfolding apply_item_created apply_text_edited apply_bookmark_set apply_bookmark_cleared
    apply_item_deleted apply_item_touched apply_link_metadata_updated
    apply_image_description_updated
apply_event h now agg (ItemEventPayload.item_created snapshot) = apply_item_created agg snapshot
apply_event h now agg (ItemEventPayload.text_edited new_text base) =
    apply_text_edited h now agg new_text base
apply_event h now agg (ItemEventPayload.bookmark_set base) = apply_bookmark_set agg base
apply_event h now agg (ItemEventPayload.bookmark_cleared base) = apply_bookmark_cleared agg base
apply_event h now agg (ItemEventPayload.item_deleted base) = apply_item_deleted now agg base
apply_event h now agg (ItemEventPayload.item_touched at base) = apply_item_touched agg at base
apply_event h now agg (ItemEventPayload.link_metadata_updated m base) =
    apply_link_metadata_updated agg m base
apply_event h now agg (ItemEventPayload.image_description_updated d base) =
    apply_image_description_updated agg d base
apply_event h now agg (ItemEventPayload.unknown raw_type raw_data) =
    ignored (unknown_payload raw_type)
