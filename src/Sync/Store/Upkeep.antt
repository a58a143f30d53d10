-- ===== src/Sync/Store/Upkeep.antt =====
-- Device state, dirty flags and the reset of all sync state: tables sync_device_state and
-- sync_dirty_flags of purr-sync/src/store.rs.
use clipkitty.Base.{ℕ, Bool, false, String, Option, none, some, List, [], str_eq}
use clipkitty.Base.Table.{find, upsert, update_where}
use clipkitty.Sync.Event.{ok}
use clipkitty.Sync.Db.{DeviceRow, FlagRow, Env}
use clipkitty.Sync.Monad.{Sync, read, write, ◌>>◌}

abbrev pub flag_index_dirty : String
flag_index_dirty = "index_dirty"

abbrev pub flag_needs_full_resync : String
flag_needs_full_resync = "needs_full_resync"

abbrev pub device_key : DeviceRow → String
device_key r = r.device_id

abbrev pub flag_key : FlagRow → String
flag_key r = r.flag_name

-- COALESCE(excluded.token, token).
unfoldable pub coalesce : {A : Type 0} → Option A → Option A → Option A
coalesce none b = b
coalesce (some a) b = some a

-- The row that the conflict clause leaves: the token is kept where none is given, and so is the
-- time of the last full resync.
unfoldable pub merge_device : Option DeviceRow → DeviceRow → DeviceRow
unfolding coalesce
merge_device none new = new
merge_device (some old) new = record new {
  last_zone_change_token = coalesce new.last_zone_change_token old.last_zone_change_token;
  last_full_resync_at = old.last_full_resync_at;
}

module _ {J : Type 0} (env : Env J) where
  unfoldable pub upsert_device_state : String → Option (List ℕ) → Sync J (Unit {0})
  unfolding merge_device
  upsert_device_state device_id token = write env (λ now db. record db {
    devices =
        upsert device_key
          (merge_device (find device_key device_id db.devices) (record {
            device_id = device_id;
            last_zone_change_token = token;
            last_full_resync_at = none;
            heartbeat_at = now;
          }))
          db.devices;
  })

  unfoldable pub fetch_zone_change_token : String → Sync J (Option (List ℕ))
  fetch_zone_change_token device_id = read env (λ db.
      ok (elim (find device_key device_id db.devices) [
        | none ↦ none
        | some r ↦ r.last_zone_change_token
      ]))

  unfoldable pub mark_full_resync : String → Sync J (Unit {0})
  mark_full_resync device_id = write env (λ now db. record db {
    devices =
        update_where (λ r. str_eq r.device_id device_id)
          (λ r. record r { last_full_resync_at = some now; heartbeat_at = now }) db.devices;
  })

  unfoldable pub get_dirty_flag : String → Sync J Bool
  get_dirty_flag flag_name =
      read env (λ db.
        ok (elim (find flag_key flag_name db.flags) [ none ↦ false | some r ↦ r.flag_value ]))

  unfoldable pub set_dirty_flag : String → Bool → Sync J (Unit {0})
  set_dirty_flag flag_name value = write env (λ now db. record db {
    flags =
        upsert flag_key (record { flag_name = flag_name; flag_value = value; updated_at = now })
          db.flags;
  })

  -- Seven statements, of which each commits by itself; the device state stays.
  unfoldable pub clear_sync_state : Sync J (Unit {0})
  clear_sync_state = do
    write env (λ now db. record db { events = [] })
    write env (λ now db. record db { snapshots = [] })
    write env (λ now db. record db { projection = [] })
    write env (λ now db. record db { deferred = [] })
    write env (λ now db. record db { dedup = [] })
    write env (λ now db. record db { flags = [] })
    write env (λ now db. record db { index_queue = [] })
