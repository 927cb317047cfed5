-- ===== src/Trips/Restores.antt =====
-- The effect of restoring a revision, between whose reads and transaction others may write.
use travel_llm_planner.Common.{
  ℕ, suc, ◌≡◌, ◌≢◌, refl, ap, sym, subst, ◌==◌, String, Option, some, arith, inl, inr, not,
}
use travel_llm_planner.Common.Raising.{ok, >>=-eq-ok, ensure, ensure-ok, Raising-cases, ok-eq}
use travel_llm_planner.Trips.{
  TripRow, RevisionRow, Db, TripError, find_trip, find_revision, insert_revision,
}
use travel_llm_planner.Trips.Snapshot.{Payload, TripDetailOut, display_fields, load_snapshot}
use travel_llm_planner.Trips.Repository.{row_or, written, compare_and_set}
use travel_llm_planner.Trips.History.{
  read_current, read_target, reverted, write_restore, read_restore, restore_revision,
}
use travel_llm_planner.Trips.Consistent.{AllHashed, row_or-ok}
use travel_llm_planner.Trips.Writes.{Effect, transaction-Effect, compare_and_set-Effect}

-- What the reads of `restore_revision` have found: the trip at the expected revision, which is not the
-- target, and the target's row with its payload.
abbrev pub HasRead :
    (String → Option Payload) → String → ℕ → ℕ → Db → Db → TripRow × RevisionRow × Payload → Type 0
HasRead decode trip_id target_revision expected_revision row_db target_db rows =
    (expected_revision ≡ rows.0.revision)
    × (find_trip trip_id row_db.trips ≡ some rows.0)
    × (target_revision ≢ rows.0.revision)
    × (find_revision trip_id target_revision target_db.trip_revisions ≡ some rows.1)
    × (load_snapshot decode rows.1.snapshot rows.1.compression ≡ ok rows.2)

pub read_restore-HasRead :
    (decode : String → Option Payload) (trip_id : String) (target_revision expected_revision : ℕ)
    (row_db target_db : Db) {rows : TripRow × RevisionRow × Payload}
    → read_restore decode trip_id target_revision expected_revision row_db target_db ≡ ok rows
    → HasRead decode trip_id target_revision expected_revision row_db target_db rows
unfolding read_restore read_current read_target
read_restore-HasRead decode trip_id target_revision expected_revision row_db target_db e =
    let (first, current, rest) =
      >>=-eq-ok (read_current trip_id target_revision expected_revision row_db) _ e in
    let (second, target, more) = >>=-eq-ok (read_target trip_id target_revision target_db) _ rest in
    let (third, loaded, done) =
      >>=-eq-ok (load_snapshot decode second.snapshot second.compression) _ more in
    let (trip, found, guards) =
      >>=-eq-ok (row_or (find_trip trip_id row_db.trips) TripError.trip_not_found) _ current in
    let (fresh, at, guard) =
      >>=-eq-ok (ensure (expected_revision == trip.revision) TripError.trip_concurrency_conflict) _
        guards in
    let (older, past, last) =
      >>=-eq-ok (ensure (not (target_revision == trip.revision)) TripError.revision_already_current)
        _ guard in
    let is_at =
      ensure-ok (expected_revision == trip.revision) TripError.trip_concurrency_conflict at in
    let is_past =
      ensure-ok (not (target_revision == trip.revision)) TripError.revision_already_current past in
    let has = HasRead decode trip_id target_revision expected_revision row_db target_db in
    subst has (ok-eq (λ (p : TripRow × RevisionRow × Payload). p) done) (
      subst (λ (t : TripRow). has (t, second, third)) (ok-eq (λ (t : TripRow). t) last)
        (
          ground (arith, is_at),
          row_or-ok (find_trip trip_id row_db.trips) TripError.trip_not_found found,
          λ same_number. ground (arith, is_past, same_number),
          row_or-ok (find_revision trip_id target_revision target_db.trip_revisions)
              TripError.revision_not_found target,
          loaded,
        ))

-- A restored trip is written at the next revision, if it still is at the expected one.
pub write_restore-Effect :
    (sha256 : String → String) (trip_id : String) (payload : Payload) (row : TripRow)
    (target_revision : ℕ) (target_row : RevisionRow) (expected_revision : ℕ) (summary now : String)
    (db : Db) (result : TripDetailOut × Db)
    → expected_revision ≡ row.revision
    → target_row.snapshot_hash ≡ sha256 target_row.snapshot
    → write_restore trip_id payload row target_revision target_row expected_revision summary now db
      ≡ ok result
    → Effect sha256 db result.1
unfolding write_restore
write_restore-Effect sha256 trip_id payload row target_revision target_row expected_revision summary
      now db result at hash e =
    let set =
      written payload target_row.schema_version target_row.snapshot target_row.snapshot_hash
        (display_fields payload) now in
    let r = reverted trip_id target_revision target_row (suc row.revision) summary now in
    let (mid, set_ok, rest) = >>=-eq-ok (compare_and_set trip_id expected_revision set db) _ e in
    let (last, inserted, done) = >>=-eq-ok (insert_revision r mid) _ rest in
    subst (Effect sha256 db) (ok-eq (λ (p : TripDetailOut × Db). p.1) done) (
      compare_and_set-Effect sha256 trip_id expected_revision set r db (λ t. refl) (λ t. refl)
        (λ t. (refl, refl, refl)) refl (ap suc (sym at)) hash set_ok inserted)

pub restore-Effect :
    (decode : String → Option Payload) (sha256 : String → String) (trip_id : String)
    (target_revision expected_revision : ℕ) (summary now : String) (row_db target_db db : Db)
    → AllHashed sha256 target_db
    → Effect sha256 db
        (restore_revision decode trip_id target_revision expected_revision summary now row_db
          target_db db).1
unfolding restore_revision
restore-Effect decode sha256 trip_id target_revision expected_revision summary now row_db target_db
      db hashed =
    elim (Raising-cases
      (read_restore decode trip_id target_revision expected_revision row_db target_db)) [
        | inl (error, failed) ↦ rw (failed, restore_revision) (Effect.unchanged refl)
        | inr ((row, target_row, payload), read) ↦
            let (at, found, past, target, loaded) =
              read_restore-HasRead decode trip_id target_revision expected_revision row_db target_db
                read in
            rw (read, restore_revision)
              (transaction-Effect sha256 db
                (write_restore trip_id payload row target_revision target_row expected_revision
                  summary now)
                (λ result e.
                  write_restore-Effect sha256 trip_id payload row target_revision target_row
                    expected_revision summary now db result at
                    (hashed trip_id target_revision target_row target) e))
      ]
