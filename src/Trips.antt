-- ===== src/Trips.antt =====
-- src/trips: the two tables of the trips database, their rows, and the statements of
-- repository.py on them. A table with a primary key holds one row for a key: an insert of a key
-- that is there fails, and an update by key changes one row or none. Times are the texts that the
-- program writes; dates are day numbers.
pub mod Snapshot
pub mod Repository
pub mod History
pub mod Rows
pub mod Tables
pub mod Consistent
pub mod Writes
pub mod Effects
pub mod Restores
pub mod Steps
pub mod Reached
pub mod Answers
pub mod Conflicts
pub mod Stale
pub mod Reverts
pub mod Baselines
mod Tests
use travel_llm_planner.Common.{
  ℕ, ◌==◌, same, if◌then◌else◌, String, Bool, true, false, ◌&&◌, Option, none, some, List, [], ◌∷◌,
}
use travel_llm_planner.Common.Raising.{Raising, ok, raise}

pub data TripPlanType : Type 0 where
  single_day multi_day : TripPlanType

pub data RevisionSource : Type 0 where
  created manual orchestrator revert migration : RevisionSource

-- The write-time projection of a snapshot.
pub record SnapshotDisplayFields : Type 0 where
  pub start_date : ℕ
  pub end_date : ℕ
  pub num_days : ℕ

pub record TripRow : Type 0 where
  pub id : String
  pub name : String
  pub plan_type : TripPlanType
  pub schema_version : ℕ
  pub revision : ℕ
  pub snapshot : String
  pub snapshot_hash : String
  pub compression : String
  pub display : SnapshotDisplayFields
  pub created_at : String
  pub updated_at : Option String

-- The summary is a text for the reader.
pub record RevisionRow : Type 0 where
  pub trip_id : String
  pub revision : ℕ
  pub source : RevisionSource
  pub summary : String
  pub restored_from_revision : Option ℕ
  pub schema_version : ℕ
  pub snapshot : String
  pub snapshot_hash : String
  pub compression : String
  pub recorded_at : String

pub record Db : Type 0 where
  pub trips : List TripRow
  pub trip_revisions : List RevisionRow

-- The exceptions that leave the repository.
pub data TripError : Type 0 where
  trip_not_found trip_plan_type_conflict missing_expected_revision trip_concurrency_conflict
        revision_not_found revision_already_current migration_baseline_conflict unreadable_snapshot
        trip_db_error :
      TripError

-- `SELECT ... FROM trips WHERE id = ?`
unfoldable pub find_trip : String → List TripRow → Option TripRow
find_trip id [] = none
find_trip id (t ∷ ts) = if same t.id id then some t else find_trip id ts

-- `SELECT ... FROM trip_revisions WHERE trip_id = ? AND revision = ?`
unfoldable pub find_revision : String → ℕ → List RevisionRow → Option RevisionRow
find_revision id k [] = none
find_revision id k (r ∷ rs) =
    if same r.trip_id id && r.revision == k then some r else find_revision id k rs

abbrev pub is_free {ℓ} : {A : Type ℓ} → Option A → Bool
is_free none = true
is_free (some a) = false

unfoldable pub insert_trip : TripRow → Db → Raising TripError Db
insert_trip t db =
    if is_free (find_trip t.id db.trips)
    then ok (record db { trips = t ∷ db.trips })
    else raise TripError.trip_db_error

unfoldable pub insert_revision : RevisionRow → Db → Raising TripError Db
insert_revision r db =
    if is_free (find_revision r.trip_id r.revision db.trip_revisions)
    then ok (record db { trip_revisions = r ∷ db.trip_revisions })
    else raise TripError.trip_db_error

-- `UPDATE trips SET ... WHERE id = ? AND revision = ?`: nothing where no row is affected.
unfoldable pub update_trip : String → ℕ → (TripRow → TripRow) → List TripRow → Option (List TripRow)
update_trip id k set [] = none
update_trip id k set (t ∷ ts) =
    let rest = update_trip id k set ts in
    if same t.id id
    then (if t.revision == k then some (set t ∷ ts) else none)
    else elim rest [ none ↦ none | some us ↦ some (t ∷ us) ]

-- `DELETE FROM trips WHERE id = ?`
unfoldable pub delete_trip : String → List TripRow → List TripRow
delete_trip id [] = []
delete_trip id (t ∷ ts) = if same t.id id then delete_trip id ts else t ∷ delete_trip id ts

-- `DELETE FROM trip_revisions WHERE trip_id = ?`
unfoldable pub delete_revisions : String → List RevisionRow → List RevisionRow
delete_revisions id [] = []
delete_revisions id (r ∷ rs) =
    if same r.trip_id id then delete_revisions id rs else r ∷ delete_revisions id rs

-- Commit on a clean exit, roll back on an exception.
abbrev pub transaction :
    {V : Type 0} → Db → (Db → Raising TripError (V × Db)) → Raising TripError V × Db
transaction {V} db body = elim (body db) [
  | ok result ↦ (ok result.0, result.1)
  | raise error ↦ (raise error, db)
]
