-- ===== src/Trips/History.antt =====
-- `restore_revision` and `import_migration_baseline` of src/trips/repository.py, which read before
-- they begin the transaction.
use travel_llm_planner.Common.{
  ℕ, suc, ◌==◌, same, String, Bool, true, false, not, Option, none, some, List, if◌then◌else◌,
}
use travel_llm_planner.Common.Raising.{Raising, ok, raise, ◌>>=◌, ensure}
use travel_llm_planner.Trips.{
  RevisionSource, TripRow, RevisionRow, Db, TripError, find_trip, find_revision, is_free,
  insert_revision, transaction,
}
use travel_llm_planner.Trips.Snapshot.{
  SaveTripRequest, Payload, TripDetailOut, display_fields, build_snapshot, load_snapshot,
  detail_from_snapshot,
}
use travel_llm_planner.Trips.Repository.{row_or, written, is_migration, compare_and_set, create}

pub data MigrationOutcome : Type 0 where
  created_baseline skipped_identical : MigrationOutcome

-- The trip's row and the two checks on it, read before the transaction.
unfoldable pub read_current : String → ℕ → ℕ → Db → Raising TripError TripRow
read_current trip_id target_revision expected_revision db =
    row_or (find_trip trip_id db.trips) TripError.trip_not_found >>= λ row.
    ensure (expected_revision == row.revision) TripError.trip_concurrency_conflict >>= λ fresh.
    ensure (not (target_revision == row.revision)) TripError.revision_already_current >>= λ older.
    ok row

unfoldable pub read_target : String → ℕ → Db → Raising TripError RevisionRow
read_target trip_id target_revision db =
    row_or (find_revision trip_id target_revision db.trip_revisions) TripError.revision_not_found

-- The revision row of a restored trip; the summary names the target.
abbrev pub reverted : String → ℕ → RevisionRow → ℕ → String → String → RevisionRow
reverted trip_id target_revision target_row new_revision summary now = record {
  trip_id = trip_id;
  revision = new_revision;
  source = RevisionSource.revert;
  summary = summary;
  restored_from_revision = some target_revision;
  schema_version = target_row.schema_version;
  snapshot = target_row.snapshot;
  snapshot_hash = target_row.snapshot_hash;
  compression = "none";
  recorded_at = now;
}

-- The transaction, with the rows read before it.
unfoldable pub write_restore :
    String
    → Payload
    → TripRow
    → ℕ
    → RevisionRow
    → ℕ
    → String
    → String
    → Db
    → Raising TripError (TripDetailOut × Db)
unfolding compare_and_set
write_restore trip_id payload row target_revision target_row expected_revision summary now tx =
    compare_and_set trip_id expected_revision
      (written payload target_row.schema_version target_row.snapshot target_row.snapshot_hash
        (display_fields payload) now)
      tx
    >>= λ after_update.
        insert_revision (reverted trip_id target_revision target_row (suc row.revision) summary now)
          after_update
        >>= λ after_insert. ok (
          detail_from_snapshot trip_id payload (suc row.revision) row.created_at (some now),
          after_insert,
        )

module _ (decode : String → Option Payload) where
  unfoldable pub read_restore :
      String → ℕ → ℕ → Db → Db → Raising TripError (TripRow × RevisionRow × Payload)
  unfolding read_current read_target
  read_restore trip_id target_revision expected_revision row_db target_db =
      read_current trip_id target_revision expected_revision row_db >>= λ row.
      read_target trip_id target_revision target_db >>= λ target_row.
      load_snapshot decode target_row.snapshot target_row.compression >>= λ payload.
      ok (row, target_row, payload)

  -- `row_db` and `target_db` are what the two reads find, `db` what the transaction finds.
  unfoldable pub restore_revision :
      String → ℕ → ℕ → String → String → Db → Db → Db → Raising TripError TripDetailOut × Db
  unfolding write_restore read_restore
  restore_revision trip_id target_revision expected_revision summary now row_db target_db db =
      elim (read_restore trip_id target_revision expected_revision row_db target_db) [
        | raise error ↦ (raise error, db)
        | ok (row, target_row, payload) ↦ transaction db (
            write_restore trip_id payload row target_revision target_row expected_revision summary
              now)
      ]

-- `SELECT snapshot_hash FROM trip_revisions WHERE ... AND source = 'MIGRATION'`
unfoldable pub find_baseline : String → ℕ → List RevisionRow → Option RevisionRow
find_baseline trip_id revision rows = elim (find_revision trip_id revision rows) [
  | none ↦ none
  | some row ↦ if is_migration row.source then some row else none
]

module _ (encode : Payload → String) (decode : String → Option Payload)
    (sha256 : String → String) where
  -- What the two reads say: skip, fail, or write.
  unfoldable pub check_baseline : String → SaveTripRequest → ℕ → Db → Db → Raising TripError Bool
  unfolding find_baseline
  check_baseline trip_id request revision baseline_db trip_db =
      elim (find_baseline trip_id revision baseline_db.trip_revisions) [
        | some row ↦
            if same row.snapshot_hash (build_snapshot encode sha256 request).digest
            then ok true
            else raise TripError.migration_baseline_conflict
        | none ↦
            if is_free (find_trip trip_id trip_db.trips)
            then ok false
            else raise TripError.migration_baseline_conflict
      ]

  unfoldable pub read_baseline :
      String → SaveTripRequest → ℕ → Db → Db → Raising TripError (Payload × Bool)
  unfolding check_baseline
  read_baseline trip_id request revision baseline_db trip_db =
      load_snapshot decode (build_snapshot encode sha256 request).canonical "none" >>= λ payload.
      check_baseline trip_id request revision baseline_db trip_db >>= λ skips. ok (payload, skips)

  unfoldable pub import_migration_baseline :
      String
      → SaveTripRequest
      → ℕ
      → String
      → String
      → String
      → Db
      → Db
      → Db
      → Raising TripError MigrationOutcome × Db
  unfolding read_baseline create
  import_migration_baseline trip_id request revision summary created_at now baseline_db trip_db db =
      elim (read_baseline trip_id request revision baseline_db trip_db) [
        | raise error ↦ (raise error, db)
        | ok (payload, true) ↦ (ok MigrationOutcome.skipped_identical, db)
        | ok (payload, false) ↦ transaction db (λ tx.
            create encode decode sha256 trip_id request payload revision RevisionSource.migration
              summary created_at now tx
            >>= λ (made, after). ok (MigrationOutcome.created_baseline, after))
      ]
