-- ===== src/Trips/Reverts.antt =====
-- What a restoration that succeeds leaves in the tables.
use travel_llm_planner.Common.{
  ℕ, suc, ◌≡◌, ◌≢◌, refl, ap, sym, ◌∙◌, subst, String, Option, some, ◌∷◌, inl, inr,
}
use travel_llm_planner.Common.Raising.{Raising, ok, raise, >>=-eq-ok, Raising-cases, ok-eq}
use travel_llm_planner.Trips.{
  RevisionSource, TripRow, RevisionRow, Db, TripError, find_trip, find_revision, insert_revision,
}
use travel_llm_planner.Trips.Snapshot.{
  Payload, TripDetailOut, display_fields, load_snapshot, detail_from_snapshot,
}
use travel_llm_planner.Trips.Repository.{written, compare_and_set}
use travel_llm_planner.Trips.History.{reverted, write_restore, read_restore, restore_revision}
use travel_llm_planner.Trips.Tables.{find_trip-update_trip, insert_revision-ok}
use travel_llm_planner.Trips.Consistent.{compare_and_set-ok}
use travel_llm_planner.Trips.Rows.{find_revision_here}
use travel_llm_planner.Trips.Conflicts.{transaction-ok}
use travel_llm_planner.Trips.Restores.{read_restore-HasRead}

-- The trip was at the expected revision when it was written; it is at the next revision now, with the
-- snapshot of the target, which a row of its own records with its origin.
abbrev pub IsReverted : String → ℕ → ℕ → RevisionRow → Db → Db → TripDetailOut → Type 0
IsReverted trip_id target_revision expected_revision target_row db after detail =
    (detail.revision ≡ suc expected_revision)
    × (t : TripRow) × (find_trip trip_id db.trips ≡ some t)
    × (t.revision ≡ expected_revision)
    × (u : TripRow) × (find_trip trip_id after.trips ≡ some u)
    × (u.revision ≡ suc expected_revision)
    × (u.snapshot ≡ target_row.snapshot)
    × (u.snapshot_hash ≡ target_row.snapshot_hash)
    × (r : RevisionRow) × (find_revision trip_id (suc expected_revision) after.trip_revisions
        ≡ some r)
    × (r.source ≡ RevisionSource.revert)
    × (r.restored_from_revision ≡ some target_revision)
    × (r.snapshot ≡ target_row.snapshot)

write_restore-IsReverted :
    (trip_id : String) (payload : Payload) (row : TripRow) (target_revision : ℕ)
    (target_row : RevisionRow) (expected_revision : ℕ) (summary now : String) (db : Db)
    {detail : TripDetailOut} {after : Db}
    → expected_revision ≡ row.revision
    → write_restore trip_id payload row target_revision target_row expected_revision summary now db
      ≡ ok (detail, after)
    → IsReverted trip_id target_revision expected_revision target_row db after detail
      × (detail.payload ≡ payload)
unfolding write_restore detail_from_snapshot
write_restore-IsReverted trip_id payload row target_revision target_row expected_revision summary
      now db {detail} {after} at e =
    let set =
      written payload target_row.schema_version target_row.snapshot target_row.snapshot_hash
        (display_fields payload) now in
    let r = reverted trip_id target_revision target_row (suc row.revision) summary now in
    let (mid, set_ok, rest) = >>=-eq-ok (compare_and_set trip_id expected_revision set db) _ e in
    let (last, inserted, done) = >>=-eq-ok (insert_revision r mid) _ rest in
    let (us, hit, middle) = compare_and_set-ok trip_id expected_revision set db set_ok in
    let (t, at_t, current, at_us, others) =
      find_trip-update_trip trip_id expected_revision set db.trips (λ t. refl) hit in
    let (free, final) = insert_revision-ok r mid inserted in
    let answer =
      detail_from_snapshot trip_id payload (suc row.revision) row.created_at (some now) in
    let tables : record { trips = us; trip_revisions = r ∷ db.trip_revisions } ≡ after =
      ap (λ (d : Db). record d { trip_revisions = r ∷ d.trip_revisions }) middle
      ∙ final
      ∙ ok-eq (λ (p : TripDetailOut × Db). p.1) done in
    let holds = λ (a : Db) (d : TripDetailOut).
      IsReverted trip_id target_revision expected_revision target_row db a d
      × (d.payload ≡ payload) in
    subst (λ (a : Db). holds a detail) tables
      (subst (holds (record { trips = us; trip_revisions = r ∷ db.trip_revisions }))
        (ok-eq (λ (p : TripDetailOut × Db). p.0) done)
        (
          (
            ap suc (sym at),
            t,
            at_t,
            current,
            set t,
            at_us,
            ap suc current,
            refl,
            refl,
            r,
            find_revision_here trip_id (suc expected_revision) r db.trip_revisions refl
                (ap suc (sym at)),
            refl,
            refl,
            refl,
          ),
          refl,
        ))

-- A restoration that answers with a trip read the row of the target, which is not the expected
-- revision. Whatever other writers did after the reads, it found the trip still at the expected
-- revision and left it at the next one, with the snapshot of the target and a row that says where it
-- comes from; the answer holds the payload of the target.
pub restore_revision-IsReverted :
    (decode : String → Option Payload) (trip_id : String) (target_revision expected_revision : ℕ)
    (summary now : String) (row_db target_db db : Db) {detail : TripDetailOut} {after : Db}
    → restore_revision decode trip_id target_revision expected_revision summary now row_db target_db
        db
      ≡ (ok detail, after)
    → (target_row : RevisionRow) × (find_revision trip_id target_revision target_db.trip_revisions
        ≡ some target_row)
      × (target_revision ≢ expected_revision)
      × (load_snapshot decode target_row.snapshot target_row.compression ≡ ok detail.payload)
      × IsReverted trip_id target_revision expected_revision target_row db after detail
unfolding restore_revision
restore_revision-IsReverted decode trip_id target_revision expected_revision summary now row_db
      target_db db {detail} {after} e =
    elim (Raising-cases
      (read_restore decode trip_id target_revision expected_revision row_db target_db)) [
        | inl (error, failed) ↦
            let refused = rw (failed, restore_revision) at e in
            let clash : raise error ≡ ok detail =
              ap (λ (p : Raising TripError TripDetailOut × Db). p.0) refused in
            cc
        | inr ((row, target_row, payload), read) ↦
            let (at, found, past, target, loaded) =
              read_restore-HasRead decode trip_id target_revision expected_revision row_db target_db
                read in
            let committed = rw (read, restore_revision) at e in
            let did =
              transaction-ok db
                (write_restore trip_id payload row target_revision target_row expected_revision
                  summary now)
                committed in
            let (reverts, read_back) =
              write_restore-IsReverted trip_id payload row target_revision target_row
                expected_revision summary now db at did in
            (
              target_row,
              target,
              λ same_number. past (same_number ∙ at),
              loaded ∙ ap (λ p. ok p) (sym read_back),
              reverts,
            )
      ]
