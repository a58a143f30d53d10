-- ===== src/Sync/Examples.antt =====
-- Data for the tests: an environment in which no statement fails, with a serialiser that keeps what
-- it is given, and a few items and events.
use clipkitty.Base.{refl, false, String, Option, none, some, pos}
use clipkitty.Sync.Types.{
  TypeSpecificData, LiveItemState, ItemEventPayload, ItemAggregate, item_created, text_edited,
}
use clipkitty.Sync.Event.{ItemEvent, Serde, IsSerde}
use clipkitty.Sync.Db.{Env, World, empty_db}
use clipkitty.Sync.Monad.{IsQuiet}
use clipkitty.Base.Table.{find}
use clipkitty.Sync.Replay.Consistent.{IsConsistent}

pub data Stored : Type 0 where
  raw : String → Stored
  payload : ItemEventPayload → Stored
  aggregate : ItemAggregate → Stored

abbrev as_text : Stored → String
as_text (raw s) = s
as_text _ = "{}"

abbrev payload_in : Stored → Option ItemEventPayload
payload_in (payload p) = some p
payload_in _ = none

abbrev aggregate_in : Stored → Option ItemAggregate
aggregate_in (aggregate a) = some a
aggregate_in _ = none

abbrev pub stored_serde : Serde Stored
stored_serde = record {
  raw = raw;
  as_text = as_text;
  len = λ _. 1;
  char_length = λ _. 1;
  encode_payload = payload;
  decode_payload = payload_in;
  encode_aggregate = aggregate;
  decode_aggregate = aggregate_in;
  decode_error = λ _. "not an aggregate";
}

pub stored_serde-IsSerde : IsSerde stored_serde
stored_serde-IsSerde = record {
  payload_round_trip = λ p known. refl;
  aggregate_round_trip = λ a. refl;
  raw_round_trip = λ s. refl;
}

abbrev pub hash : String → String
hash t = t

abbrev pub test_env : Env Stored
test_env = record {
  serde = stored_serde;
  clock = λ n. pos n;
  fault = λ _. none;
  content_hash = hash;
  format_future = λ _ _ _. "FutureVersion";
}

pub test_env-IsQuiet : IsQuiet test_env
test_env-IsQuiet n = refl

abbrev pub empty_world : World Stored
empty_world = record { db = empty_db Stored; ticks = 0 }

abbrev pub note : LiveItemState
note = record {
  snapshot = record {
    content_type = "text";
    content_text = "a";
    content_hash = "a";
    source_app = none;
    source_app_bundle_id = none;
    timestamp_unix = pos 5;
    is_bookmarked = false;
    thumbnail_base64 = none;
    color_rgba = none;
    type_specific = TypeSpecificData.text "a";
  };
  versions = record { content = 1; bookmark = 0; existence = 1; touch = 1; metadata = 1 };
}

abbrev pub event : String → ItemEventPayload → ItemEvent
event id p = record {
  event_id = id;
  item_id = "i";
  origin_device_id = "d";
  schema_version = 1;
  recorded_at = pos 1;
  payload = p;
}

abbrev pub created : ItemEvent
created = event "e1" (item_created note.snapshot)

abbrev pub edited : ItemEvent
edited = event "e2" (text_edited "b" 1)

pub empty-IsConsistent : IsConsistent test_env empty_world.db
unfolding find
empty-IsConsistent i = tt
