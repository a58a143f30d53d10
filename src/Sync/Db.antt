-- ===== src/Sync/Db.antt =====
-- The sync tables of purr-sync/src/schema.rs, and how a method of the store runs one statement
-- on them. The world around the database is an `Env`: which statement fails, and what the clock
-- shows at each one. A statement that fails leaves the database as it was.
use clipkitty.Base.{ℕ, ℤ, Bool, String, Option, List, []}
use clipkitty.Sync.Types.{VersionVector, VersionDomain}
use clipkitty.Sync.Event.{Serde, SyncError}

pub record EventRow (J : Type 0) : Type 0 where
  pub event_id : String
  pub item_id : String
  pub origin_device_id : String
  pub schema_version : ℕ
  pub recorded_at : ℤ
  pub payload_type : String
  pub payload_data : J
  pub is_local : Bool
  pub uploaded : Bool
  pub compacted : Bool

-- The columns of a u64 hold it by the casts `as i64` and `as u64`, which are inverse.
pub record SnapshotRow (J : Type 0) : Type 0 where
  pub item_id : String
  pub snapshot_revision : ℕ
  pub schema_version : ℕ
  pub covers_through_event : Option String
  pub aggregate_state : J
  pub uploaded : Bool
  pub uploaded_at : Option ℤ

pub record ProjectionRow : Type 0 where
  pub item_id : String
  pub versions : VersionVector
  pub is_tombstoned : Bool
  pub is_materialized : Bool

pub record DeferredRow (J : Type 0) : Type 0 where
  pub event_id : String
  pub item_id : String
  pub origin_device_id : String
  pub schema_version : ℕ
  pub recorded_at : ℤ
  pub payload_type : String
  pub payload_data : J
  pub deferred_reason : String
  pub deferred_at : ℤ

pub record DedupRow : Type 0 where
  pub event_id : String
  pub applied_at : ℤ

pub record DeviceRow : Type 0 where
  pub device_id : String
  pub last_zone_change_token : Option (List ℕ)
  pub last_full_resync_at : Option ℤ
  pub heartbeat_at : ℤ

pub record FlagRow : Type 0 where
  pub flag_name : String
  pub flag_value : Bool
  pub updated_at : ℤ

pub record QueueRow : Type 0 where
  pub queue_key : String
  pub operation : String
  pub item_id : Option String
  pub updated_at : ℤ

pub record Db (J : Type 0) : Type 0 where
  pub events : List (EventRow J)
  pub snapshots : List (SnapshotRow J)
  pub projection : List ProjectionRow
  pub deferred : List (DeferredRow J)
  pub dedup : List DedupRow
  pub devices : List DeviceRow
  pub flags : List FlagRow
  pub index_queue : List QueueRow

abbrev pub empty_db : (J : Type 0) → Db J
empty_db J = record {
  events = [];
  snapshots = [];
  projection = [];
  deferred = [];
  dedup = [];
  devices = [];
  flags = [];
  index_queue = [];
}

pub record Env (J : Type 0) : Type 0 where
  pub serde : Serde J
  pub clock : ℕ → ℤ
  pub fault : ℕ → Option SyncError
  pub content_hash : String → String
  pub format_future : VersionDomain → ℕ → ℕ → String  -- the text of a deferral's reason

-- The database, and how many statements and clock readings were made.
pub record World (J : Type 0) : Type 0 where
  pub db : Db J
  pub ticks : ℕ
