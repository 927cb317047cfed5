-- ===== src/Trips/Effects.antt =====
-- The effects of the operations of the repository.
use travel_llm_planner.Common.{
  ℕ, suc, ◌≡◌, refl, ap, sym, ◌∙◌, subst, same, String, true, false, Option, none, ◌∷◌, Bool-cases,
  Option-cases, inl, inr,
}
use travel_llm_planner.Common.Raising.{ok, ◌>>=◌, >>=-eq-ok, Raising-cases, ok-eq}
use travel_llm_planner.Trips.{
  RevisionSource, TripRow, Db, find_trip, find_revision, insert_trip, insert_revision,
}
use travel_llm_planner.Trips.Snapshot.{
  SaveTripRequest, Payload, TripDetailOut, build_snapshot, load_snapshot, detail_from_snapshot,
}
use travel_llm_planner.Trips.Repository.{
  new_trip, new_revision, written, compare_and_set, create, save, write_update, check_update,
  update_in, update,
}
use travel_llm_planner.Trips.History.{read_baseline, import_migration_baseline, MigrationOutcome}
use travel_llm_planner.Trips.Tables.{insert_trip-ok, insert_revision-ok}
use travel_llm_planner.Trips.Writes.{Effect, transaction-Effect, compare_and_set-Effect}

module _ (encode : Payload → String) (decode : String → Option Payload)
    (sha256 : String → String) where
  create-Effect :
      (trip_id : String) (request : SaveTripRequest) (payload : Payload) (revision : ℕ)
      (source : RevisionSource) (summary created_at now : String) (db : Db) {made : Unit {0} × Db}
      → create encode decode sha256 trip_id request payload revision source summary created_at now
          db
        ≡ ok made
      → Effect sha256 db made.1
  unfolding create build_snapshot
  create-Effect trip_id request payload revision source summary created_at now db {made} e =
      let t = new_trip encode decode sha256 trip_id request payload revision created_at in
      let r =
        new_revision encode decode sha256 trip_id request payload revision source summary now in
      let (mid, first, rest) = >>=-eq-ok (insert_trip t db) _ e in
      let (last, second, done) = >>=-eq-ok (insert_revision r mid) _ rest in
      let (fresh, middle) = insert_trip-ok t db first in
      let (free, final) = insert_revision-ok r mid second in
      let same_db : last ≡ made.1 = ok-eq (λ (p : Unit {0} × Db). p.1) done in
      Effect.created t r fresh (refl, refl, refl) refl refl refl
        (ap (λ (d : Db). find_revision trip_id revision d.trip_revisions) middle ∙ free)
        (sym same_db
          ∙ sym final
          ∙ ap (λ (d : Db). record d { trip_revisions = r ∷ d.trip_revisions }) (sym middle))

  -- Its transaction commits both rows, whatever is answered.
  create-commits :
      {V : Type 0} (value : V) (trip_id : String) (request : SaveTripRequest) (payload : Payload)
      (revision : ℕ) (source : RevisionSource) (summary created_at now : String) (db : Db)
      (result : V × Db)
      → (create encode decode sha256 trip_id request payload revision source summary created_at now
            db
          >>= λ (made, after). ok (value, after))
        ≡ ok result
      → Effect sha256 db result.1
  create-commits {V} value trip_id request payload revision source summary created_at now db result
        e =
      let (pair, did, done) =
        >>=-eq-ok
          (create encode decode sha256 trip_id request payload revision source summary created_at
            now db)
          _ e in
      subst (Effect sha256 db) (ok-eq (λ (p : V × Db). p.1) done)
        (create-Effect trip_id request payload revision source summary created_at now db did)

  pub save-Effect :
      (trip_id now : String) (request : SaveTripRequest) (db : Db)
      → Effect sha256 db (save encode decode sha256 trip_id now request db).1
  unfolding save
  save-Effect trip_id now request db =
      let canonical = (build_snapshot encode sha256 request).canonical in
      elim (Raising-cases (load_snapshot decode canonical "none")) [
        | inl (error, failed) ↦ rw (failed, save) (Effect.unchanged refl)
        | inr (payload, loaded) ↦
            rw (loaded, save)
              (transaction-Effect sha256 db
                (λ tx.
                  create encode decode sha256 trip_id request payload 0 RevisionSource.created
                    "Trip created" now now tx
                  >>= λ (made, after). ok (detail_from_snapshot trip_id payload 0 now none, after))
                (create-commits (detail_from_snapshot trip_id payload 0 now none) trip_id request
                  payload 0 RevisionSource.created "Trip created" now now db))
      ]

  write_update-Effect :
      (trip_id : String) (request : SaveTripRequest) (payload : Payload) (source : RevisionSource)
      (summary now : String) (row : TripRow) (db : Db) {result : Option TripDetailOut × Db}
      → write_update encode decode sha256 trip_id request payload source summary now row db
        ≡ ok result
      → Effect sha256 db result.1
  unfolding write_update build_snapshot
  write_update-Effect trip_id request payload source summary now row db {result} e =
      let digest = (build_snapshot encode sha256 request).digest in
      elim (Bool-cases (same digest row.snapshot_hash)) [
        | inl unchanged_hash ↦
            let same_rows = rw (unchanged_hash, write_update) at e in
            let (stored, loaded, done) =
              >>=-eq-ok (load_snapshot decode row.snapshot row.compression) _ same_rows in
            Effect.unchanged (sym (ok-eq (λ (p : Option TripDetailOut × Db). p.1) done))
        | inr changed ↦
            let wrote_rows = rw (changed, write_update) at e in
            let snapshot = build_snapshot encode sha256 request in
            let set =
              written payload payload.schema_version snapshot.canonical snapshot.digest
                snapshot.display now in
            let r =
              new_revision encode decode sha256 trip_id request payload (suc row.revision) source
                summary now in
            let (mid, set_ok, rest) =
              >>=-eq-ok (compare_and_set trip_id row.revision set db) _ wrote_rows in
            let (last, inserted, done) = >>=-eq-ok (insert_revision r mid) _ rest in
            subst (Effect sha256 db) (ok-eq (λ (p : Option TripDetailOut × Db). p.1) done) (
              compare_and_set-Effect sha256 trip_id row.revision set r db (λ t. refl) (λ t. refl)
                (λ t. (refl, refl, refl)) refl refl refl set_ok inserted)
      ]

  update_in-Effect :
      (trip_id : String) (request : SaveTripRequest) (payload : Payload) (source : RevisionSource)
      (summary now : String) (db : Db) (result : Option TripDetailOut × Db)
      → update_in encode decode sha256 trip_id request payload source summary now db ≡ ok result
      → Effect sha256 db result.1
  unfolding update_in
  update_in-Effect trip_id request payload source summary now db result e =
      elim (Option-cases (find_trip trip_id db.trips)) [
        | inl missing ↦
            let done = rw (missing, update_in) at e in
            Effect.unchanged (sym (ok-eq (λ (p : Option TripDetailOut × Db). p.1) done))
        | inr (row, found) ↦
            let guarded = rw (found, update_in) at e in
            let (checked, passed, rest) =
              >>=-eq-ok (check_update encode decode sha256 request row) _ guarded in
            write_update-Effect trip_id request payload source summary now row db rest
      ]

  pub update-Effect :
      (trip_id : String) (request : SaveTripRequest) (source : RevisionSource)
      (summary now : String) (db : Db)
      → Effect sha256 db (update encode decode sha256 trip_id request source summary now db).1
  unfolding update
  update-Effect trip_id request source summary now db =
      let canonical = (build_snapshot encode sha256 request).canonical in
      elim (Raising-cases (load_snapshot decode canonical "none")) [
        | inl (error, failed) ↦ rw (failed, update) (Effect.unchanged refl)
        | inr (payload, loaded) ↦
            rw (loaded, update)
              (transaction-Effect sha256 db
                (update_in encode decode sha256 trip_id request payload source summary now)
                (update_in-Effect trip_id request payload source summary now db))
      ]

  pub import-Effect :
      (trip_id : String) (request : SaveTripRequest) (revision : ℕ)
      (summary created_at now : String) (baseline_db trip_db db : Db)
      → Effect sha256 db
          (import_migration_baseline encode decode sha256 trip_id request revision summary
            created_at now baseline_db trip_db db).1
  unfolding import_migration_baseline
  import-Effect trip_id request revision summary created_at now baseline_db trip_db db =
      let reads = read_baseline encode decode sha256 trip_id request revision baseline_db trip_db in
      elim (Raising-cases reads) [
        | inl (error, failed) ↦ rw (failed, import_migration_baseline) (Effect.unchanged refl)
        | inr ((payload, true), found) ↦
            rw (found, import_migration_baseline) (Effect.unchanged refl)
        | inr ((payload, false), absent) ↦
            rw (absent, import_migration_baseline)
              (transaction-Effect sha256 db
                (λ tx.
                  create encode decode sha256 trip_id request payload revision
                    RevisionSource.migration summary created_at now tx
                  >>= λ (made, after). ok (MigrationOutcome.created_baseline, after))
                (create-commits MigrationOutcome.created_baseline trip_id request payload revision
                  RevisionSource.migration summary created_at now db))
      ]
