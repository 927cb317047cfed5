-- ===== src/Trips/Stale.antt =====
-- Two writers of one trip: the later of two with the same token is refused.
use travel_llm_planner.Common.{
  ℕ, ◌≡◌, ◌≢◌, refl, ap, sym, ◌∙◌, ◌==◌, String, true, Option, some, Bool-cases, arith, inl, inr,
}
use travel_llm_planner.Common.Raising.{ok, raise}
use travel_llm_planner.Trips.{RevisionSource, TripRow, Db, TripError, find_trip, transaction}
use travel_llm_planner.Trips.Snapshot.{SaveTripRequest, Payload, TripDetailOut, snapshot_payload}
use travel_llm_planner.Trips.Repository.{check_update, update_in, update, same_plan}
use travel_llm_planner.Trips.Answers.{IsReadBack}
use travel_llm_planner.Trips.{TripPlanType}
use travel_llm_planner.Trips.Conflicts.{update_body, update_cases}

same_plan_trans :
    (a b c : TripPlanType) → same_plan a b ≡ true → same_plan b c ≡ true → same_plan a c ≡ true
same_plan_trans TripPlanType.single_day TripPlanType.single_day TripPlanType.single_day p q = refl
same_plan_trans TripPlanType.single_day TripPlanType.single_day TripPlanType.multi_day p q = cc
same_plan_trans TripPlanType.single_day TripPlanType.multi_day c p q = cc
same_plan_trans TripPlanType.multi_day TripPlanType.single_day c p q = cc
same_plan_trans TripPlanType.multi_day TripPlanType.multi_day TripPlanType.single_day p q = cc
same_plan_trans TripPlanType.multi_day TripPlanType.multi_day TripPlanType.multi_day p q = refl

module _ (encode : Payload → String) (decode : String → Option Payload)
    (sha256 : String → String) where
  check_update_stale :
      (request : SaveTripRequest) (row : TripRow) (expected : ℕ)
      → same_plan row.plan_type request.plan_type ≡ true
      → request.expected_revision ≡ some expected
      → expected ≢ row.revision
      → check_update encode decode sha256 request row ≡ raise TripError.trip_concurrency_conflict
  unfolding check_update
  check_update_stale request row expected typed given stale =
      elim (Bool-cases (expected == row.revision)) [
        | inl fresh ↦ absurd (stale (ground (arith, fresh)))
        | inr differ ↦ rw (typed, given, differ) refl
      ]

module _ (encode : Payload → String) (decode : String → Option Payload)
    (sha256 : String → String) where
  update_stale :
      (trip_id : String) (request : SaveTripRequest) (source : RevisionSource)
      (summary now : String) (db : Db) (row : TripRow) (expected : ℕ)
      → IsReadBack encode decode request
      → find_trip trip_id db.trips ≡ some row
      → same_plan row.plan_type request.plan_type ≡ true
      → request.expected_revision ≡ some expected
      → expected ≢ row.revision
      → update encode decode sha256 trip_id request source summary now db
        ≡ (raise TripError.trip_concurrency_conflict, db)
  unfolding update_in
  update_stale trip_id request source summary now db row expected read_back found typed given
        stale =
      let refused =
        check_update_stale encode decode sha256 request row expected typed given stale in
      let body =
        update_in encode decode sha256 trip_id request (snapshot_payload request) source summary
          now in
      let fails : body db ≡ raise TripError.trip_concurrency_conflict =
        rw (found, update_in) (rw refused refl) in
      update_body encode decode sha256 trip_id request source summary now db read_back
      ∙ rw (fails, transaction) refl

  -- When an update has written a next revision, every other update that carries the same token and
  -- plan type raises the conflict and leaves the tables as the first one left them.
  pub update_refuses_second :
      (trip_id : String) (first second : SaveTripRequest) (source other_source : RevisionSource)
      (summary now other_summary later : String) (db : Db) {detail : TripDetailOut} {after : Db}
      → IsReadBack encode decode first
      → IsReadBack encode decode second
      → update encode decode sha256 trip_id first source summary now db ≡ (ok (some detail), after)
      → first.expected_revision ≢ some detail.revision
      → second.expected_revision ≡ first.expected_revision
      → same_plan first.plan_type second.plan_type ≡ true
      → update encode decode sha256 trip_id second other_source other_summary later after
        ≡ (raise TripError.trip_concurrency_conflict, after)
  unfolding snapshot_payload
  update_refuses_second trip_id first second source other_source summary now other_summary later db
        {detail} {after} first_back second_back e wrote token typed =
      let (row, found, plan, current, cases) =
        update_cases encode decode sha256 trip_id first source summary now db first_back e in
      elim cases [
        | inl (digest, same_db, same_revision) ↦
            absurd (wrote (current ∙ ap (λ n. some n) (sym same_revision)))
        | inr (next, payload, u, at, number, plan_kept, snapshot, r, recorded, by, holds) ↦
            update_stale trip_id second other_source other_summary later after u row.revision
              second_back at (ap (λ p. same_plan p second.plan_type) plan_kept ∙ typed)
              (token ∙ current) (λ same_number. omega arith)
      ]
