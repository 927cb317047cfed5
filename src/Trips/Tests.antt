-- ===== src/Trips/Tests.antt =====
-- A trip that is saved, updated once, updated again with an old token, and restored, and a trip that is
-- imported twice. JSON is stood
-- for by a table of the two documents that occur, SHA-256 by the text itself.
use travel_llm_planner.Common.{
  ℕ, ◌≡◌, ◌≢◌, ◌⊎◌, refl, sym, same, if◌then◌else◌, String, true, Option, none, some, [], ◌∷◌,
}
use travel_llm_planner.Common.Raising.{ok, raise}
use travel_llm_planner.Trips.{
  TripPlanType, RevisionSource, TripRow, RevisionRow, Db, TripError, find_trip, find_revision,
  insert_trip, insert_revision, update_trip,
}
use travel_llm_planner.Trips.Snapshot.{
  SaveTripRequest, Payload, TripDetailOut, snapshot_payload, display_fields, build_snapshot,
  load_snapshot, detail_from_snapshot,
}
use travel_llm_planner.Trips.Repository.{
  same_plan, compare_and_set, create, save, get, write_update, check_update, update_in, update,
}
use travel_llm_planner.Trips.History.{
  read_current, read_target, write_restore, read_restore, restore_revision,
}
use travel_llm_planner.Trips.History.{
  MigrationOutcome, find_baseline, check_baseline, read_baseline, import_migration_baseline,
}
use travel_llm_planner.Trips.Baselines.{import_again_skips}
use travel_llm_planner.Trips.Consistent.{IsConsistent}
use travel_llm_planner.Trips.Steps.{saves, updates, empty, run, run_keeps_revision}
use travel_llm_planner.Trips.Reached.{Reachable, Reachable-IsConsistent}
use travel_llm_planner.Trips.Answers.{get-save}
use travel_llm_planner.Trips.Conflicts.{IsNoop, IsNext, update_cases}
use travel_llm_planner.Trips.Stale.{update_refuses_second}
use travel_llm_planner.Trips.Reverts.{IsReverted, restore_revision-IsReverted}

abbrev request_with : String → Option ℕ → SaveTripRequest
request_with plan token = record {
  plan_type = TripPlanType.multi_day;
  name = "Spring";
  days = 12 ∷ 13 ∷ [];
  plan = plan;
  expected_revision = token;
}

abbrev payload_of : String → Payload
payload_of plan = record {
  plan_type = TripPlanType.multi_day;
  name = "Spring";
  days = 12 ∷ 13 ∷ [];
  plan = plan;
  schema_version = 1;
}

abbrev encode : Payload → String
encode p = p.plan

abbrev decode : String → Option Payload
decode text =
    if same text "by foot"
    then some (payload_of "by foot")
    else if same text "by tram"
    then some (payload_of "by tram")
    else none

abbrev sha256 : String → String
sha256 text = text

abbrev trip_at : ℕ → String → Option String → TripRow
trip_at revision plan updated_at = record {
  id = "t1";
  name = "Spring";
  plan_type = TripPlanType.multi_day;
  schema_version = 1;
  revision = revision;
  snapshot = plan;
  snapshot_hash = plan;
  compression = "none";
  display = record { start_date = 12; end_date = 13; num_days = 2 };
  created_at = "noon";
  updated_at = updated_at;
}

abbrev row_of : ℕ → String → RevisionSource → String → Option ℕ → String → RevisionRow
row_of revision plan source summary origin now = record {
  trip_id = "t1";
  revision = revision;
  source = source;
  summary = summary;
  restored_from_revision = origin;
  schema_version = 1;
  snapshot = plan;
  snapshot_hash = plan;
  compression = "none";
  recorded_at = now;
}

abbrev first_row : RevisionRow
first_row = row_of 0 "by foot" RevisionSource.created "Trip created" none "noon"

abbrev second_row : RevisionRow
second_row = row_of 1 "by tram" RevisionSource.manual "edited" none "one"

abbrev saved : Db
saved = record { trips = trip_at 0 "by foot" none ∷ []; trip_revisions = first_row ∷ [] }

abbrev updated : Db
updated = record {
  trips = trip_at 1 "by tram" (some "one") ∷ [];
  trip_revisions = second_row ∷ first_row ∷ [];
}

abbrev reverted_db : Db
reverted_db = record {
  trips = trip_at 2 "by foot" (some "two") ∷ [];
  trip_revisions =
      row_of 2 "by foot" RevisionSource.revert "Restored revision 0" (some 0) "two"
      ∷ second_row
      ∷ first_row
      ∷ [];
}

abbrev detail_at : ℕ → String → Option String → TripDetailOut
detail_at revision plan updated_at = record {
  id = "t1";
  payload = payload_of plan;
  revision = revision;
  created_at = "noon";
  updated_at = updated_at;
}

saving : run encode decode sha256 (saves "t1" "noon" (request_with "by foot" none)) empty ≡ saved
unfolding run save create insert_trip insert_revision build_snapshot snapshot_payload display_fields
    load_snapshot find_trip find_revision
saving = refl

updating :
    update encode decode sha256 "t1"
      (request_with "by tram" (some 0))
      RevisionSource.manual
      "edited"
      "one"
      saved
    ≡ (ok (some (detail_at 1 "by tram" (some "one"))), updated)
unfolding update update_in check_update write_update compare_and_set update_trip insert_revision
    build_snapshot snapshot_payload display_fields load_snapshot detail_from_snapshot find_trip
    find_revision
updating = refl

restoring :
    restore_revision decode "t1" 0 1 "Restored revision 0" "two" updated updated updated
    ≡ (ok (detail_at 2 "by foot" (some "two")), reverted_db)
unfolding restore_revision read_restore read_current read_target write_restore compare_and_set
    update_trip insert_revision display_fields load_snapshot detail_from_snapshot find_trip
    find_revision
restoring = refl

saved_reached : Reachable encode decode sha256 saved
saved_reached =
    Reachable.called (saves "t1" "noon" (request_with "by foot" none)) empty saved refl
      Reachable.start (sym saving)

first_found : find_revision "t1" 0 saved.trip_revisions ≡ some first_row
unfolding find_revision
first_found = refl

none_saved : find_trip "t1" empty.trips ≡ none
unfolding find_trip
none_saved = refl

foot_back :
    decode (encode (snapshot_payload (request_with "by foot" (some 0))))
    ≡ some (snapshot_payload (request_with "by foot" (some 0)))
unfolding snapshot_payload
foot_back = refl

tram_back :
    decode (encode (snapshot_payload (request_with "by tram" (some 0))))
    ≡ some (snapshot_payload (request_with "by tram" (some 0)))
unfolding snapshot_payload
tram_back = refl

Reachable-IsConsistent_example : IsConsistent sha256 saved
Reachable-IsConsistent_example = Reachable-IsConsistent encode decode sha256 saved_reached

run_keeps_revision_example :
    find_revision "t1" 0
      (run encode decode sha256
        (updates "t1" (request_with "by tram" (some 0)) RevisionSource.manual "edited" "one")
        saved).trip_revisions
    ≡ some first_row
run_keeps_revision_example =
    run_keeps_revision encode decode sha256
      (updates "t1" (request_with "by tram" (some 0)) RevisionSource.manual "edited" "one") saved
      "t1" 0 first_row tt refl first_found

zero_is_old : ◌≢◌ {A = Option ℕ} (some 0) (some 1)
zero_is_old = λ e. cc

update_refuses_second_example :
    update encode decode sha256 "t1"
      (request_with "by foot" (some 0))
      RevisionSource.orchestrator
      "late"
      "two"
      updated
    ≡ (raise TripError.trip_concurrency_conflict, updated)
update_refuses_second_example =
    update_refuses_second encode decode sha256 "t1" (request_with "by tram" (some 0))
      (request_with "by foot" (some 0)) RevisionSource.manual RevisionSource.orchestrator "edited"
      "one" "late" "two" saved tram_back foot_back updating zero_is_old refl refl

update_cases_example :
    (row : TripRow) × (find_trip "t1" saved.trips ≡ some row)
    × (same_plan row.plan_type TripPlanType.multi_day ≡ true)
    × (some 0 ≡ some row.revision)
    × (IsNoop
          (build_snapshot encode sha256 (request_with "by tram" (some 0))).digest
          row
          saved
          updated
          (detail_at 1 "by tram" (some "one"))
        ⊎ IsNext "t1"
            (build_snapshot encode sha256 (request_with "by tram" (some 0)))
            (snapshot_payload (request_with "by tram" (some 0)))
            RevisionSource.manual
            row
            updated
            (detail_at 1 "by tram" (some "one")))
update_cases_example =
    update_cases encode decode sha256 "t1" (request_with "by tram" (some 0)) RevisionSource.manual
      "edited" "one" saved tram_back updating

restore_revision-IsReverted_example :
    (target_row : RevisionRow) × (find_revision "t1" 0 updated.trip_revisions ≡ some target_row)
    × ◌≢◌ {A = ℕ} 0 1
    × (load_snapshot decode target_row.snapshot target_row.compression
        ≡ ok (detail_at 2 "by foot" (some "two")).payload)
    × IsReverted "t1" 0 1 target_row updated reverted_db (detail_at 2 "by foot" (some "two"))
restore_revision-IsReverted_example =
    restore_revision-IsReverted decode "t1" 0 1 "Restored revision 0" "two" updated updated updated
      restoring

get-save_example :
    ((save encode decode sha256 "t1" "noon" (request_with "by foot" (some 0)) empty).0
      ≡ ok (
          detail_from_snapshot "t1"
            (snapshot_payload (request_with "by foot" (some 0)))
            0
            "noon"
            none))
    × (get encode decode sha256 "t1"
          (save encode decode sha256 "t1" "noon" (request_with "by foot" (some 0)) empty).1
        ≡ ok (
            some (
              detail_from_snapshot "t1"
                (snapshot_payload (request_with "by foot" (some 0)))
                0
                "noon"
                none)))
get-save_example =
    get-save encode decode sha256 "t1" "noon" (request_with "by foot" (some 0)) empty foot_back
      (Reachable-IsConsistent encode decode sha256 Reachable.start) none_saved

abbrev imported : Db
imported = record {
  trips = trip_at 4 "by foot" none ∷ [];
  trip_revisions =
      row_of 4 "by foot" RevisionSource.migration "Imported from previous store at revision 4" none
        "three"
      ∷ [];
}

importing :
    import_migration_baseline encode decode sha256 "t1"
      (request_with "by foot" none)
      4
      "Imported from previous store at revision 4"
      "noon"
      "three"
      empty
      empty
      empty
    ≡ (ok MigrationOutcome.created_baseline, imported)
unfolding import_migration_baseline read_baseline check_baseline find_baseline create insert_trip
    insert_revision build_snapshot snapshot_payload display_fields load_snapshot find_trip
    find_revision
importing = refl

import_again_skips_example :
    import_migration_baseline encode decode sha256 "t1"
      (request_with "by foot" none)
      4
      "Imported from previous store at revision 4"
      "noon"
      "four"
      imported
      imported
      imported
    ≡ (ok MigrationOutcome.skipped_identical, imported)
import_again_skips_example =
    import_again_skips encode decode sha256 "t1" (request_with "by foot" none) 4
      "Imported from previous store at revision 4" "noon" "three"
      "Imported from previous store at revision 4" "noon" "four" empty empty empty imported imported
      importing
