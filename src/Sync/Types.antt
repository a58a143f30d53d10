-- ===== src/Sync/Types.antt =====
-- purr-sync/src/types.rs: versions, payloads, aggregates and outcomes.
use clipkitty.Base.{ℕ, ℤ, Bool, String, Option, List}

abbrev pub sync_schema_version : ℕ
sync_schema_version = 1

pub record VersionVector : Type 0 where
  pub content : ℕ  -- u64, as are the others
  pub bookmark : ℕ
  pub existence : ℕ
  pub touch : ℕ
  pub metadata : ℕ

pub record LinkMetadataSnapshot : Type 0 where
  pub title : Option String
  pub description : Option String
  pub image_data_base64 : Option String

pub record FileSnapshotEntry : Type 0 where
  pub path : String
  pub filename : String
  pub file_size : ℕ
  pub uti : String
  pub bookmark_data_base64 : String
  pub file_status : String

pub data TypeSpecificData : Type 0 where
  text : String → TypeSpecificData
  color : String → TypeSpecificData
  link : String → Option LinkMetadataSnapshot → TypeSpecificData
  image : String → String → Bool → TypeSpecificData  -- data, description, is_animated
  file : String → List FileSnapshotEntry → TypeSpecificData

pub record ItemSnapshotData : Type 0 where
  pub content_type : String
  pub content_text : String
  pub content_hash : String
  pub source_app : Option String
  pub source_app_bundle_id : Option String
  pub timestamp_unix : ℤ
  pub is_bookmarked : Bool
  pub thumbnail_base64 : Option String
  pub color_rgba : Option ℕ
  pub type_specific : TypeSpecificData

-- The numbers are the base versions.
pub data ItemEventPayload : Type 0 where
  item_created : ItemSnapshotData → ItemEventPayload
  text_edited : String → ℕ → ItemEventPayload
  bookmark_set : ℕ → ItemEventPayload
  bookmark_cleared : ℕ → ItemEventPayload
  item_deleted : ℕ → ItemEventPayload
  item_touched : ℤ → ℕ → ItemEventPayload
  link_metadata_updated : LinkMetadataSnapshot → ℕ → ItemEventPayload
  image_description_updated : String → ℕ → ItemEventPayload
  unknown : String → String → ItemEventPayload  -- raw_type, raw_data

unfoldable pub type_tag : ItemEventPayload → String
type_tag (item_created _) = "item_created"
type_tag (text_edited _ _) = "text_edited"
type_tag (bookmark_set _) = "bookmark_set"
type_tag (bookmark_cleared _) = "bookmark_cleared"
type_tag (item_deleted _) = "item_deleted"
type_tag (item_touched _ _) = "item_touched"
type_tag (link_metadata_updated _ _) = "link_metadata_updated"
type_tag (image_description_updated _ _) = "image_description_updated"
type_tag (unknown raw_type _) = raw_type

pub record LiveItemState : Type 0 where
  pub snapshot : ItemSnapshotData
  pub versions : VersionVector

pub record TombstoneState : Type 0 where
  pub deleted_at_unix : ℤ
  pub versions : VersionVector
  pub content_type : String

pub data ItemAggregate : Type 0 where
  live : LiveItemState → ItemAggregate
  tombstoned : TombstoneState → ItemAggregate

pub data VersionDomain : Type 0 where
  content bookmark existence touch metadata : VersionDomain

pub data IgnoreReason : Type 0 where
  stale_version : VersionDomain → ℕ → ℕ → IgnoreReason  -- domain, event_base, current
  operation_on_tombstone : IgnoreReason
  already_applied : IgnoreReason
  unsupported_version : ℕ → ℕ → IgnoreReason  -- event_version, max_supported
  unknown_payload : String → IgnoreReason

pub data DeferredReason : Type 0 where
  missing_item : DeferredReason
  future_version : VersionDomain → ℕ → ℕ → DeferredReason  -- domain, event_base, current

pub record ForkPlan : Type 0 where
  pub forked_snapshot : ItemSnapshotData
  pub reason : String
  pub forked_from : Option String

pub record ProjectionDelta : Type 0 where
  pub new_aggregate : ItemAggregate
  pub bumped_domains : List VersionDomain
  pub read_model_dirty : Bool
  pub index_dirty : Bool

pub data ApplyResult : Type 0 where
  applied : ProjectionDelta → ApplyResult
  ignored : IgnoreReason → ApplyResult
  deferred : DeferredReason → ApplyResult
  forked : ForkPlan → ApplyResult

pub data IndexQueueOperation : Type 0 where
  reset upsert delete : IndexQueueOperation

pub data IndexQueueEntry : Type 0 where
  reset : IndexQueueEntry
  upsert : String → IndexQueueEntry
  delete : String → IndexQueueEntry

pub data DownloadBatchOutcome : Type 0 where
  applied : ℕ → ℕ → DownloadBatchOutcome  -- events_applied, snapshots_applied
  partial_failure : ℕ → ℕ → Bool → DownloadBatchOutcome  -- applied_count, failed_count, should_retry
  full_resync_required : DownloadBatchOutcome

pub data CheckpointState : Type 0 where
  absent : CheckpointState
  local_only : String → CheckpointState  -- covers_through_event
  uploaded : String → ℤ → CheckpointState  -- covers_through_event, uploaded_at

pub record FullResyncResult : Type 0 where
  pub checkpoints_applied : ℕ
  pub tail_events_applied : ℕ
  pub tail_events_ignored : ℕ
  pub tail_events_deferred : ℕ
  pub tail_events_forked : ℕ
  pub fork_plans : List (String × ForkPlan)
