-- ===== src/Trips/Conflicts.antt =====
-- Compare-and-set of `update`: what a successful update was based on, and what a stale one meets.
use travel_llm_planner.Common.{
  suc, ◌≡◌, refl, ap, sym, ◌∙◌, subst, ◌==◌, same, same→eq, String, true, Option, none, some, ◌∷◌,
  Bool-cases, Option-cases, arith, inl, inr, ◌⊎◌,
}
use travel_llm_planner.Common.Raising.{
  Raising, ok, raise, >>=-eq-ok, ensure, ensure-ok, Raising-cases, ok-eq,
}
use travel_llm_planner.Trips.{
  RevisionSource, TripRow, RevisionRow, Db, TripError, find_trip, find_revision, insert_revision,
  transaction,
}
use travel_llm_planner.Trips.Snapshot.{
  SaveTripRequest, Payload, TripDetailOut, Snapshot, snapshot_payload, build_snapshot,
  load_snapshot, detail_from_snapshot,
}
use travel_llm_planner.Trips.Repository.{
  new_revision, written, compare_and_set, write_update, check_update, update_in, update, same_plan,
  row_or,
}
use travel_llm_planner.Trips.Tables.{find_trip-update_trip, insert_revision-ok}
use travel_llm_planner.Trips.Rows.{find_revision_here}
use travel_llm_planner.Trips.Consistent.{row_or-ok, compare_and_set-ok}
use travel_llm_planner.Trips.Answers.{IsReadBack, load_snapshot-encode}

-- An update that changes nothing: the stored state has the hash of the request.
abbrev pub IsNoop : String → TripRow → Db → Db → TripDetailOut → Type 0
IsNoop digest row db after detail =
    (digest ≡ row.snapshot_hash) × (after ≡ db) × (detail.revision ≡ row.revision)

-- An update that writes the request as the next revision.
abbrev pub IsNext :
    String → Snapshot → Payload → RevisionSource → TripRow → Db → TripDetailOut → Type 0
IsNext trip_id snapshot payload source row after detail =
    (detail.revision ≡ suc row.revision)
    × (detail.payload ≡ payload)
    × (u : TripRow) × (find_trip trip_id after.trips ≡ some u)
    × (u.revision ≡ suc row.revision)
    × (u.plan_type ≡ payload.plan_type)
    × (u.snapshot ≡ snapshot.canonical)
    × (r : RevisionRow) × (find_revision trip_id (suc row.revision) after.trip_revisions ≡ some r)
    × (r.source ≡ source)
    × (r.snapshot ≡ snapshot.canonical)

pub transaction-ok :
    {V : Type 0} (db : Db) (body : Db → Raising TripError (V × Db)) {value : V} {after : Db}
    → transaction db body ≡ (ok value, after)
    → body db ≡ ok (value, after)
transaction-ok {V} db body {value} {after} e = elim (Raising-cases (body db)) [
  | inl (error, failed) ↦
      let rolled_back = rw (failed, transaction) at e in
      let clash : raise error ≡ ok value = ap (λ (p : Raising TripError V × Db). p.0) rolled_back in
      cc
  | inr ((v, last), did) ↦
      let committed = rw (did, transaction) at e in
      let answers : ok v ≡ ok value = ap (λ (p : Raising TripError V × Db). p.0) committed in
      let values : v ≡ value = ok-eq (λ (w : V). w) answers in
      let dbs : last ≡ after = ap (λ (p : Raising TripError V × Db). p.1) committed in
      did ∙ ap (λ w. ok (w, last)) values ∙ ap (λ d. ok (value, d)) dbs
]

module _ (encode : Payload → String) (decode : String → Option Payload)
    (sha256 : String → String) where
  check_update-ok :
      (request : SaveTripRequest) (row : TripRow) {u : Unit {0}}
      → check_update encode decode sha256 request row ≡ ok u
      → (same_plan row.plan_type request.plan_type ≡ true)
        × (request.expected_revision ≡ some row.revision)
  unfolding check_update
  check_update-ok request row e =
      let (typed, plans, rest) =
        >>=-eq-ok
          (ensure (same_plan row.plan_type request.plan_type) TripError.trip_plan_type_conflict) _
          e in
      let (expected, given, last) =
        >>=-eq-ok (row_or request.expected_revision TripError.missing_expected_revision) _ rest in
      let at = ensure-ok (expected == row.revision) TripError.trip_concurrency_conflict last in
      let number : expected ≡ row.revision = ground (arith, at) in
      (
        ensure-ok (same_plan row.plan_type request.plan_type) TripError.trip_plan_type_conflict
            plans,
        row_or-ok request.expected_revision TripError.missing_expected_revision given
            ∙ ap (λ n. some n) number,
      )

  write_update_cases :
      (trip_id : String) (request : SaveTripRequest) (payload : Payload) (source : RevisionSource)
      (summary now : String) (row : TripRow) (db : Db) {detail : TripDetailOut} {after : Db}
      → write_update encode decode sha256 trip_id request payload source summary now row db
        ≡ ok (some detail, after)
      → IsNoop (build_snapshot encode sha256 request).digest row db after detail
        ⊎ IsNext trip_id (build_snapshot encode sha256 request) payload source row after detail
  unfolding write_update detail_from_snapshot
  write_update_cases trip_id request payload source summary now row db {detail} {after} e =
      let snapshot = build_snapshot encode sha256 request in
      elim (Bool-cases (same snapshot.digest row.snapshot_hash)) [
        | inl alike ↦
            let kept = rw (alike, write_update) at e in
            let (stored, loaded, done) =
              >>=-eq-ok (load_snapshot decode row.snapshot row.compression) _ kept in
            let details : some
                  (detail_from_snapshot trip_id stored row.revision row.created_at row.updated_at)
                ≡ some detail =
              ok-eq (λ (p : Option TripDetailOut × Db). p.0) done in
            let found : detail_from_snapshot trip_id stored row.revision row.created_at
                  row.updated_at
                ≡ detail =
              cc in
            inl (
              same→eq snapshot.digest row.snapshot_hash alike,
              sym (ok-eq (λ (p : Option TripDetailOut × Db). p.1) done),
              sym (ap (λ (d : TripDetailOut). d.revision) found),
            )
        | inr changed ↦
            let wrote = rw (changed, write_update) at e in
            let set =
              written payload payload.schema_version snapshot.canonical snapshot.digest
                snapshot.display now in
            let r =
              new_revision encode decode sha256 trip_id request payload (suc row.revision) source
                summary now in
            let (mid, set_ok, rest) =
              >>=-eq-ok (compare_and_set trip_id row.revision set db) _ wrote in
            let (last, inserted, done) = >>=-eq-ok (insert_revision r mid) _ rest in
            let (us, hit, middle) = compare_and_set-ok trip_id row.revision set db set_ok in
            let (t, at, current, at_us, others) =
              find_trip-update_trip trip_id row.revision set db.trips (λ t. refl) hit in
            let (free, final) = insert_revision-ok r mid inserted in
            let answer =
              detail_from_snapshot trip_id payload (suc row.revision) row.created_at (some now) in
            let details : some answer ≡ some detail =
              ok-eq (λ (p : Option TripDetailOut × Db). p.0) done in
            let found : answer ≡ detail = cc in
            let tables : record { trips = us; trip_revisions = r ∷ db.trip_revisions } ≡ after =
              ap (λ (d : Db). record d { trip_revisions = r ∷ d.trip_revisions }) middle
              ∙ final
              ∙ ok-eq (λ (p : Option TripDetailOut × Db). p.1) done in
            inr (
              subst (λ (d : Db). IsNext trip_id snapshot payload source row d detail) tables
                (subst
                  (λ (d : TripDetailOut).
                    IsNext trip_id snapshot payload source row
                      (record { trips = us; trip_revisions = r ∷ db.trip_revisions }) d)
                  found
                  (
                    refl,
                    refl,
                    set t,
                    at_us,
                    ap suc current,
                    refl,
                    refl,
                    r,
                    find_revision_here trip_id (suc row.revision) r db.trip_revisions refl refl,
                    refl,
                    refl,
                  )))
      ]

module _ (encode : Payload → String) (decode : String → Option Payload)
    (sha256 : String → String) where
  pub update_body :
      (trip_id : String) (request : SaveTripRequest) (source : RevisionSource)
      (summary now : String) (db : Db)
      → IsReadBack encode decode request
      → update encode decode sha256 trip_id request source summary now db
        ≡ transaction db (
            update_in encode decode sha256 trip_id request
              (snapshot_payload request)
              source
              summary
              now)
  unfolding update build_snapshot
  update_body trip_id request source summary now db read_back =
      rw (load_snapshot-encode encode decode request read_back, update) refl

  -- An update that answers with a trip found the trip at the expected revision and of the request's
  -- plan type. Either the stored state has the hash of the request and nothing changes, or the trip
  -- and a new revision row hold the request at the next revision.
  pub update_cases :
      (trip_id : String) (request : SaveTripRequest) (source : RevisionSource)
      (summary now : String) (db : Db) {detail : TripDetailOut} {after : Db}
      → IsReadBack encode decode request
      → update encode decode sha256 trip_id request source summary now db
        ≡ (ok (some detail), after)
      → (row : TripRow) × (find_trip trip_id db.trips ≡ some row)
        × (same_plan row.plan_type request.plan_type ≡ true)
        × (request.expected_revision ≡ some row.revision)
        × (IsNoop (build_snapshot encode sha256 request).digest row db after detail
            ⊎ IsNext trip_id
                (build_snapshot encode sha256 request)
                (snapshot_payload request)
                source
                row
                after
                detail)
  unfolding update_in
  update_cases trip_id request source summary now db {detail} {after} read_back e =
      let payload = snapshot_payload request in
      let body = update_in encode decode sha256 trip_id request payload source summary now in
      let did : body db ≡ ok (some detail, after) =
        transaction-ok db body
          (sym (update_body trip_id request source summary now db read_back) ∙ e) in
      elim (Option-cases (find_trip trip_id db.trips)) [
        | inl missing ↦
            let absent = rw (missing, update_in) at did in
            let clash : none ≡ some detail =
              ok-eq (λ (p : Option TripDetailOut × Db). p.0) absent in
            cc
        | inr (row, found) ↦
            let guarded = rw (found, update_in) at did in
            let (checked, passed, rest) =
              >>=-eq-ok (check_update encode decode sha256 request row) _ guarded in
            let (typed, current) = check_update-ok encode decode sha256 request row passed in
            (
              row,
              found,
              typed,
              current,
              write_update_cases encode decode sha256 trip_id request payload source summary now row
                  db rest,
            )
      ]
