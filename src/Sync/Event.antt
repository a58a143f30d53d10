-- ===== src/Sync/Event.antt =====
-- purr-sync/src/event.rs and snapshot.rs: the envelopes of an event and of a snapshot, and their
-- stored forms. `J` is the type of a stored JSON text and `Serde` is what serde_json does.
use clipkitty.Base.{ℕ, ℤ, ◌≡◌, ap, Bool, false, String, Option, none, some, saturating_add}
use clipkitty.Sync.Types.{ItemEventPayload, unknown, ItemAggregate, sync_schema_version, type_tag}

pub data SyncError : Type 0 where
  sqlite : String → SyncError
  pool : String → SyncError
  inconsistent_data : String → SyncError

pub data Result {ℓ} (A : Type ℓ) : Type ℓ where
  ok : A → Result A
  err : SyncError → Result A

-- The serialiser: `raw` and `as_text` read a stored text as a string and back; `len` is its length in
-- bytes, and `char_length` that in characters, which is SQLite's LENGTH.
pub record Serde (J : Type 0) : Type 0 where
  pub raw : String → J
  pub as_text : J → String
  pub len : J → ℕ
  pub char_length : J → ℕ
  pub encode_payload : ItemEventPayload → J
  pub decode_payload : J → Option ItemEventPayload
  pub encode_aggregate : ItemAggregate → J
  pub decode_aggregate : J → Option ItemAggregate
  pub decode_error : J → String

-- A payload of a type that this version knows.
abbrev pub IsKnown : ItemEventPayload → Type 0
IsKnown (unknown raw_type raw_data) = ⊥
IsKnown _ = Unit

-- What serde_json documents: a payload that was serialised is read back. A payload of an unknown type
-- is not serialised again: nothing is assumed of it, but that strings are read back.
pub record IsSerde {J : Type 0} (serde : Serde J) : Type 0 where
  pub payload_round_trip :
      (p : ItemEventPayload) → IsKnown p → serde.decode_payload (serde.encode_payload p) ≡ some p
  pub aggregate_round_trip :
      (a : ItemAggregate) → serde.decode_aggregate (serde.encode_aggregate a) ≡ some a
  pub raw_round_trip : (s : String) → serde.as_text (serde.raw s) ≡ s

pub record ItemEvent : Type 0 where
  pub event_id : String
  pub item_id : String
  pub origin_device_id : String
  pub schema_version : ℕ  -- u32
  pub recorded_at : ℤ
  pub payload : ItemEventPayload

-- `Uuid::new_v4` and `Utc::now` give the first and the last argument.
unfoldable pub new_local : String → String → String → ItemEventPayload → ℤ → ItemEvent
new_local uuid item_id device_id payload now = record {
  event_id = uuid;
  item_id = item_id;
  origin_device_id = device_id;
  schema_version = sync_schema_version;
  recorded_at = now;
  payload = payload;
}

unfoldable pub payload_type : ItemEvent → String
unfolding type_tag
payload_type e = type_tag e.payload

pub record ItemSnapshot : Type 0 where
  pub item_id : String
  pub snapshot_revision : ℕ  -- u64
  pub schema_version : ℕ
  pub covers_through_event : Option String
  pub aggregate : ItemAggregate
  pub uploaded : Bool
  pub uploaded_at : Option ℤ

unfoldable pub initial : String → ItemAggregate → ItemSnapshot
initial item_id aggregate = record {
  item_id = item_id;
  snapshot_revision = 1;
  schema_version = sync_schema_version;
  covers_through_event = none;
  aggregate = aggregate;
  uploaded = false;
  uploaded_at = none;
}

unfoldable pub compacted : String → ℕ → String → ItemAggregate → ItemSnapshot
compacted item_id previous_revision covers_through_event aggregate = record {
  item_id = item_id;
  snapshot_revision = saturating_add previous_revision 1;
  schema_version = sync_schema_version;
  covers_through_event = some covers_through_event;
  aggregate = aggregate;
  uploaded = false;
  uploaded_at = none;
}

-- The arm of `from_stored` for a payload that does not parse.
abbrev or_unknown : Option ItemEventPayload → String → String → ItemEventPayload
or_unknown (some p) raw_type raw_data = p
or_unknown none raw_type raw_data = unknown raw_type raw_data

module _ {J : Type 0} (serde : Serde J) where
  -- A payload of an unknown type is stored as the text it came with.
  unfoldable pub payload_text : ItemEventPayload → J
  payload_text (unknown raw_type raw_data) = serde.raw raw_data
  payload_text p = serde.encode_payload p

  unfoldable pub payload_data : ItemEvent → J
  unfolding payload_text
  payload_data e = payload_text e.payload

  unfoldable pub payload_size : ItemEvent → ℕ
  unfolding payload_data
  payload_size e = serde.len (payload_data e)

  -- `ItemEvent::from_stored`, which always returns `Ok`.
  unfoldable pub event_from_stored : String → String → String → ℕ → ℤ → String → J → ItemEvent
  event_from_stored event_id item_id origin_device_id schema_version recorded_at ptype pdata =
      record {
        event_id = event_id;
        item_id = item_id;
        origin_device_id = origin_device_id;
        schema_version = schema_version;
        recorded_at = recorded_at;
        payload = or_unknown (serde.decode_payload pdata) ptype (serde.as_text pdata);
      }

  -- `ItemSnapshot::from_stored`.
  unfoldable pub snapshot_from_stored :
      String → ℕ → ℕ → Option String → J → Bool → Option ℤ → Result ItemSnapshot
  snapshot_from_stored item_id revision schema covers aggregate_data uploaded uploaded_at =
      elim (serde.decode_aggregate aggregate_data) [
        | none ↦ err (inconsistent_data (serde.decode_error aggregate_data))
        | some aggregate ↦ ok (record {
          item_id = item_id;
          snapshot_revision = revision;
          schema_version = schema;
          covers_through_event = covers;
          aggregate = aggregate;
          uploaded = uploaded;
          uploaded_at = uploaded_at;
        })
      ]

  -- An unknown payload is one that the serialiser cannot read.
  abbrev pub IsStorable : ItemEventPayload → Type 0
  IsStorable (unknown raw_type raw_data) = serde.decode_payload (serde.raw raw_data) ≡ none
  IsStorable _ = Unit

  payload_round_trip :
      (p : ItemEventPayload)
      → IsSerde serde
      → IsStorable p
      → or_unknown
          (serde.decode_payload (payload_text p))
          (type_tag p)
          (serde.as_text (payload_text p))
        ≡ p
  unfolding payload_text type_tag
  payload_round_trip (unknown t d) laws s = rw (s, laws.raw_round_trip d)
  payload_round_trip p laws s = rw (laws.payload_round_trip p tt)

  -- Where the serialiser reads back what it wrote, what is stored of an event is read back as the
  -- event, also an event of an unknown type whose data the serialiser cannot read.
  pub event_from_stored-payload_data :
      (e : ItemEvent)
      → IsSerde serde
      → IsStorable e.payload
      → event_from_stored e.event_id e.item_id e.origin_device_id e.schema_version e.recorded_at
          (payload_type e)
          (payload_data e)
        ≡ e
  unfolding event_from_stored payload_type payload_data
  event_from_stored-payload_data e laws s =
      ap (λ p. record e { payload = p }) (payload_round_trip e.payload laws s)
