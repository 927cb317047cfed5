-- ===== src/Trips/Baselines.antt =====
-- Importing a trip from the previous store a second time.
use travel_llm_planner.Common.{
  ℕ, ◌≡◌, refl, ap, sym, ◌∙◌, same, same_refl, String, Bool, true, false, Option, some, ◌∷◌, inl,
  inr,
}
use travel_llm_planner.Common.Raising.{Raising, ok, raise, ◌>>=◌, >>=-eq-ok, Raising-cases, ok-eq}
use travel_llm_planner.Trips.{
  RevisionSource, RevisionRow, Db, TripError, find_revision, insert_trip, insert_revision,
}
use travel_llm_planner.Trips.Snapshot.{SaveTripRequest, Payload, build_snapshot, load_snapshot}
use travel_llm_planner.Trips.Repository.{new_trip, new_revision, create, is_migration}
use travel_llm_planner.Trips.History.{
  MigrationOutcome, find_baseline, check_baseline, read_baseline, import_migration_baseline,
}
use travel_llm_planner.Trips.Tables.{insert_revision-ok}
use travel_llm_planner.Trips.Rows.{find_revision_here}
use travel_llm_planner.Trips.Conflicts.{transaction-ok}

module _ (encode : Payload → String) (decode : String → Option Payload)
    (sha256 : String → String) where
  -- The row that a creation leaves for its revision.
  create-row :
      (trip_id : String) (request : SaveTripRequest) (payload : Payload) (revision : ℕ)
      (source : RevisionSource) (summary created_at now : String) (db : Db) {made : Unit {0} × Db}
      → create encode decode sha256 trip_id request payload revision source summary created_at now
          db
        ≡ ok made
      → find_revision trip_id revision made.1.trip_revisions
        ≡ some
            (new_revision encode decode sha256 trip_id request payload revision source summary now)
  unfolding create
  create-row trip_id request payload revision source summary created_at now db {made} e =
      let t = new_trip encode decode sha256 trip_id request payload revision created_at in
      let r =
        new_revision encode decode sha256 trip_id request payload revision source summary now in
      let (mid, first, rest) = >>=-eq-ok (insert_trip t db) _ e in
      let (last, second, done) = >>=-eq-ok (insert_revision r mid) _ rest in
      let (free, final) = insert_revision-ok r mid second in
      let tables : record mid { trip_revisions = r ∷ mid.trip_revisions } ≡ made.1 =
        final ∙ ok-eq (λ (p : Unit {0} × Db). p.1) done in
      ap (λ (d : Db). find_revision trip_id revision d.trip_revisions) (sym tables)
      ∙ find_revision_here trip_id revision r mid.trip_revisions refl refl

  -- A baseline with the hash of the request is skipped.
  check_baseline-skips :
      (trip_id : String) (request : SaveTripRequest) (revision : ℕ) (baseline_db trip_db : Db)
      (row : RevisionRow)
      → find_revision trip_id revision baseline_db.trip_revisions ≡ some row
      → is_migration row.source ≡ true
      → row.snapshot_hash ≡ (build_snapshot encode sha256 request).digest
      → check_baseline encode decode sha256 trip_id request revision baseline_db trip_db ≡ ok true
  unfolding check_baseline find_baseline
  check_baseline-skips trip_id request revision baseline_db trip_db row found migrated hash =
      let digest = (build_snapshot encode sha256 request).digest in
      let baseline : find_baseline trip_id revision baseline_db.trip_revisions ≡ some row =
        rw (found, find_baseline) (rw migrated refl) in
      let alike : same row.snapshot_hash digest ≡ true =
        ap (λ h. same h digest) hash ∙ same_refl digest in
      rw (baseline, check_baseline) (rw alike refl)

  import_commits :
      (trip_id : String) (request : SaveTripRequest) (revision : ℕ)
      (summary created_at now : String) (baseline_db trip_db db : Db) {after : Db}
      → import_migration_baseline encode decode sha256 trip_id request revision summary created_at
          now baseline_db trip_db db
        ≡ (ok MigrationOutcome.created_baseline, after)
      → (payload : Payload) × (load_snapshot decode
            (build_snapshot encode sha256 request).canonical
            "none"
          ≡ ok payload)
        × (find_revision trip_id revision after.trip_revisions
            ≡ some (
                new_revision encode decode sha256 trip_id request payload revision
                  RevisionSource.migration summary now))
  unfolding import_migration_baseline read_baseline
  import_commits trip_id request revision summary created_at now baseline_db trip_db db {after} e =
      let canonical = (build_snapshot encode sha256 request).canonical in
      elim (Raising-cases
        (read_baseline encode decode sha256 trip_id request revision baseline_db trip_db)) [
          | inl (error, failed) ↦
              let refused = rw (failed, import_migration_baseline) at e in
              let clash : raise error ≡ ok MigrationOutcome.created_baseline =
                ap (λ (p : Raising TripError MigrationOutcome × Db). p.0) refused in
              cc
          | inr ((payload, true), found) ↦
              let skipped = rw (found, import_migration_baseline) at e in
              let clash : ok MigrationOutcome.skipped_identical
                  ≡ ok MigrationOutcome.created_baseline =
                ap (λ (p : Raising TripError MigrationOutcome × Db). p.0) skipped in
              cc
          | inr ((payload, false), absent) ↦
              let committed = rw (absent, import_migration_baseline) at e in
              let made = λ (tx : Db).
                create encode decode sha256 trip_id request payload revision
                  RevisionSource.migration summary created_at now tx in
              let did =
                transaction-ok db
                  (λ tx. made tx >>= λ (pair, last). ok (MigrationOutcome.created_baseline, last))
                  committed in
              let (pair, wrote, done) = >>=-eq-ok (made db) _ did in
              let (value, loaded, rest) =
                >>=-eq-ok (load_snapshot decode canonical "none") _ absent in
              let (skips, checked, last) =
                >>=-eq-ok
                  (check_baseline encode decode sha256 trip_id request revision baseline_db trip_db)
                  _ rest in
              let row =
                create-row trip_id request payload revision RevisionSource.migration summary
                  created_at now db wrote in
              (
                payload,
                loaded ∙ ap (λ v. ok v) (ok-eq (λ (p : Payload × Bool). p.0) last),
                ap (λ (d : Db). find_revision trip_id revision d.trip_revisions)
                      (sym (ok-eq (λ (p : MigrationOutcome × Db). p.1) done))
                    ∙ row,
              )
        ]

  -- When an import has created a trip, a later import of the same request at the same revision, which
  -- reads the tables that the first one left, is skipped and writes nothing, at whatever time and
  -- whatever else has been written to the tables that it finds.
  pub import_again_skips :
      (trip_id : String) (request : SaveTripRequest) (revision : ℕ)
      (summary created_at now other_summary other_created_at later : String)
      (baseline_db trip_db db later_trip_db later_db : Db) {after : Db}
      → import_migration_baseline encode decode sha256 trip_id request revision summary created_at
          now baseline_db trip_db db
        ≡ (ok MigrationOutcome.created_baseline, after)
      → import_migration_baseline encode decode sha256 trip_id request revision other_summary
          other_created_at later after later_trip_db later_db
        ≡ (ok MigrationOutcome.skipped_identical, later_db)
  unfolding import_migration_baseline read_baseline build_snapshot
  import_again_skips trip_id request revision summary created_at now other_summary other_created_at
        later baseline_db trip_db db later_trip_db later_db {after} e =
      let (payload, loaded, found) =
        import_commits trip_id request revision summary created_at now baseline_db trip_db db e in
      let r =
        new_revision encode decode sha256 trip_id request payload revision RevisionSource.migration
          summary now in
      let skips =
        check_baseline-skips trip_id request revision after later_trip_db r found refl refl in
      let reads : read_baseline encode decode sha256 trip_id request revision after later_trip_db
          ≡ ok (payload, true) =
        rw (loaded, read_baseline) (rw skips refl) in
      rw (reads, import_migration_baseline) refl
