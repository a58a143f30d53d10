-- ===== src/Sync/Store/Projection.antt =====
-- Projections: table sync_projection of purr-sync/src/store.rs.
use clipkitty.Base.{true, false, String, Option, none, some, [], ◌≡◌, refl, if◌then◌else◌}
use clipkitty.Base.Table.{find, upsert, delete}
use clipkitty.Sync.Types.{VersionVector}
use clipkitty.Sync.Event.{ok}
use clipkitty.Sync.Db.{ProjectionRow, Env}
use clipkitty.Sync.Monad.{Sync, read, write}

pub data ProjectionState : Type 0 where
  pending_materialization : VersionVector → ProjectionState
  materialized : VersionVector → ProjectionState
  tombstoned : VersionVector → ProjectionState

pub record ProjectionEntry : Type 0 where
  pub item_id : String
  pub state : ProjectionState

abbrev pub projection_key : ProjectionRow → String
projection_key r = r.item_id

unfoldable pub row_of_state : String → ProjectionState → ProjectionRow
row_of_state item_id (pending_materialization v) = record {
  item_id = item_id;
  versions = v;
  is_tombstoned = false;
  is_materialized = false;
}
row_of_state item_id (materialized v) = record {
  item_id = item_id;
  versions = v;
  is_tombstoned = false;
  is_materialized = true;
}
row_of_state item_id (tombstoned v) = record {
  item_id = item_id;
  versions = v;
  is_tombstoned = true;
  is_materialized = false;
}

unfoldable pub state_of_row : ProjectionRow → ProjectionState
state_of_row r =
    if r.is_tombstoned
    then tombstoned r.versions
    else if r.is_materialized
    then materialized r.versions
    else pending_materialization r.versions

unfoldable pub entry_of_row : ProjectionRow → ProjectionEntry
unfolding state_of_row
entry_of_row r = record { item_id = r.item_id; state = state_of_row r }

-- The two flags of a projection row tell the three states apart: what is stored is read back.
pub state_of_row-row_of_state :
    (item_id : String) (s : ProjectionState)
    → entry_of_row (row_of_state item_id s) ≡ record { item_id = item_id; state = s }
unfolding entry_of_row row_of_state
state_of_row-row_of_state item_id (pending_materialization v) = refl
state_of_row-row_of_state item_id (materialized v) = refl
state_of_row-row_of_state item_id (tombstoned v) = refl

module _ {J : Type 0} (env : Env J) where
  unfoldable pub upsert_projection : String → ProjectionState → Sync J (Unit {0})
  unfolding row_of_state
  upsert_projection item_id s = write env (λ now db. record db {
    projection = upsert projection_key (row_of_state item_id s) db.projection;
  })

  unfoldable pub fetch_projection : String → Sync J (Option ProjectionEntry)
  unfolding entry_of_row
  fetch_projection item_id = read env (λ db. ok (elim (find projection_key item_id db.projection) [
    | none ↦ none
    | some r ↦ some (entry_of_row r)
  ]))

  unfoldable pub clear_projections : Sync J (Unit {0})
  clear_projections = write env (λ now db. record db { projection = [] })

  unfoldable pub delete_projection : String → Sync J (Unit {0})
  delete_projection item_id =
      write env (λ now db. record db { projection = delete projection_key item_id db.projection })
