-- ===== src/Trips/Repository.antt =====
-- `TripRepository` of src/trips/repository.py. Each operation takes the database that it finds and
-- gives its answer and the database that it leaves. Where an operation reads before it begins its
-- transaction, it takes the database of each read apart, since another writer may come between.
use travel_llm_planner.Common.{
  ℕ, suc, ◌==◌, same, String, Bool, true, false, not, Option, none, some, if◌then◌else◌,
}
use travel_llm_planner.Common.Raising.{Raising, ok, raise, ◌>>=◌, ensure}
use travel_llm_planner.Trips.{
  TripPlanType, RevisionSource, SnapshotDisplayFields, TripRow, RevisionRow, Db, TripError,
  find_trip, is_free, insert_trip, insert_revision, update_trip, delete_trip, delete_revisions,
  transaction,
}
use travel_llm_planner.Trips.Snapshot.{
  SaveTripRequest, Payload, TripDetailOut, build_snapshot, load_snapshot, detail_from_snapshot,
}

abbrev pub same_plan : TripPlanType → TripPlanType → Bool
same_plan TripPlanType.single_day TripPlanType.single_day = true
same_plan TripPlanType.multi_day TripPlanType.multi_day = true
same_plan a b = false

-- `if not rows: raise`
abbrev pub row_or : {A : Type 0} → Option A → TripError → Raising TripError A
row_or none error = raise error
row_or (some row) error = ok row

-- The columns that an update writes; the rest of the row stays.
abbrev pub written :
    Payload → ℕ → String → String → SnapshotDisplayFields → String → TripRow → TripRow
written payload schema_version snapshot digest display now row = record row {
  name = payload.name;
  plan_type = payload.plan_type;
  schema_version = schema_version;
  revision = suc row.revision;
  snapshot = snapshot;
  snapshot_hash = digest;
  compression = "none";
  display = display;
  updated_at = some now;
}

abbrev pub is_migration : RevisionSource → Bool
is_migration RevisionSource.migration = true
is_migration source = false

-- `UPDATE` and the check of `rows_affected`, which raises `_CasMiss`.
unfoldable pub compare_and_set : String → ℕ → (TripRow → TripRow) → Db → Raising TripError Db
compare_and_set id k set db = elim (update_trip id k set db.trips) [
  | none ↦ raise TripError.trip_concurrency_conflict
  | some trips ↦ ok (record db { trips = trips })
]

module _ (encode : Payload → String) (decode : String → Option Payload)
    (sha256 : String → String) where
  -- A new trip row, as `_insert_trip_row` is called with.
  abbrev pub new_trip : String → SaveTripRequest → Payload → ℕ → String → TripRow
  new_trip trip_id request payload revision created_at =
      let snapshot = build_snapshot encode sha256 request in
      record {
        id = trip_id;
        name = payload.name;
        plan_type = payload.plan_type;
        schema_version = payload.schema_version;
        revision = revision;
        snapshot = snapshot.canonical;
        snapshot_hash = snapshot.digest;
        compression = "none";
        display = snapshot.display;
        created_at = created_at;
        updated_at = none;
      }

  abbrev pub new_revision :
      String → SaveTripRequest → Payload → ℕ → RevisionSource → String → String → RevisionRow
  new_revision trip_id request payload revision source summary now =
      let snapshot = build_snapshot encode sha256 request in
      record {
        trip_id = trip_id;
        revision = revision;
        source = source;
        summary = summary;
        restored_from_revision = none;
        schema_version = payload.schema_version;
        snapshot = snapshot.canonical;
        snapshot_hash = snapshot.digest;
        compression = "none";
        recorded_at = now;
      }

  -- Both rows of a new trip, in one transaction.
  unfoldable pub create :
      String
      → SaveTripRequest
      → Payload
      → ℕ
      → RevisionSource
      → String
      → String
      → String
      → Db
      → Raising TripError (Unit {0} × Db)
  create trip_id request payload revision source summary created_at now db =
      insert_trip (new_trip trip_id request payload revision created_at) db >>= λ with_trip.
      insert_revision (new_revision trip_id request payload revision source summary now) with_trip
      >>= λ with_both. ok (tt, with_both)

  unfoldable pub save :
      String → String → SaveTripRequest → Db → Raising TripError TripDetailOut × Db
  unfolding create
  save trip_id now request db =
      elim (load_snapshot decode (build_snapshot encode sha256 request).canonical "none") [
        | raise error ↦ (raise error, db)
        | ok payload ↦ transaction db (λ tx.
            create trip_id request payload 0 RevisionSource.created "Trip created" now now tx
            >>= λ (made, after). ok (detail_from_snapshot trip_id payload 0 now none, after))
      ]

  unfoldable pub get : String → Db → Raising TripError (Option TripDetailOut)
  get trip_id db = elim (find_trip trip_id db.trips) [
    | none ↦ ok none
    | some row ↦ load_snapshot decode row.snapshot row.compression >>= λ payload.
        ok (some (detail_from_snapshot trip_id payload row.revision row.created_at row.updated_at))
  ]

  -- What the transaction of `update` does once the guards are passed.
  unfoldable pub write_update :
      String
      → SaveTripRequest
      → Payload
      → RevisionSource
      → String
      → String
      → TripRow
      → Db
      → Raising TripError (Option TripDetailOut × Db)
  unfolding compare_and_set
  write_update trip_id request payload source summary now row tx =
      let snapshot = build_snapshot encode sha256 request in
      if same snapshot.digest row.snapshot_hash
      then (load_snapshot decode row.snapshot row.compression >>= λ stored. ok (
        some (detail_from_snapshot trip_id stored row.revision row.created_at row.updated_at),
        tx,
      ))
      else (compare_and_set trip_id row.revision
            (written payload payload.schema_version snapshot.canonical snapshot.digest
              snapshot.display now)
            tx
          >>= λ after_update.
              insert_revision
                (new_revision trip_id request payload (suc row.revision) source summary now)
                after_update
              >>= λ after_insert. ok (
                some (
                    detail_from_snapshot trip_id payload (suc row.revision) row.created_at
                      (some now)),
                after_insert,
              ))

  -- The guards of `update`, in their order.
  unfoldable pub check_update : SaveTripRequest → TripRow → Raising TripError (Unit {0})
  check_update request row =
      ensure (same_plan row.plan_type request.plan_type) TripError.trip_plan_type_conflict
      >>= λ same_type.
          row_or request.expected_revision TripError.missing_expected_revision >>= λ expected.
          ensure (expected == row.revision) TripError.trip_concurrency_conflict

  -- The body of the transaction of `update`.
  unfoldable pub update_in :
      String
      → SaveTripRequest
      → Payload
      → RevisionSource
      → String
      → String
      → Db
      → Raising TripError (Option TripDetailOut × Db)
  unfolding write_update check_update
  update_in trip_id request payload source summary now tx = elim (find_trip trip_id tx.trips) [
    | none ↦ ok (none, tx)
    | some row ↦ check_update request row >>= λ checked.
        write_update trip_id request payload source summary now row tx
  ]

  unfoldable pub update :
      String
      → SaveTripRequest
      → RevisionSource
      → String
      → String
      → Db
      → Raising TripError (Option TripDetailOut) × Db
  unfolding update_in
  update trip_id request source summary now db =
      elim (load_snapshot decode (build_snapshot encode sha256 request).canonical "none") [
        | raise error ↦ (raise error, db)
        | ok payload ↦ transaction db (update_in trip_id request payload source summary now)
      ]

  unfoldable pub delete : String → Db → Raising TripError Bool × Db
  delete trip_id db = transaction db (λ tx. ok (
    not (is_free (find_trip trip_id tx.trips)),
    record {
      trips = delete_trip trip_id tx.trips;
      trip_revisions = delete_revisions trip_id tx.trip_revisions;
    },
  ))
