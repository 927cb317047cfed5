-- ===== src/Trips/Answers.antt =====
-- What the operations of the repository answer, and how the answers fit the tables they leave.
use travel_llm_planner.Common.{
  ℕ, ◌≡◌, refl, sym, ◌∙◌, String, Option, none, some, ◌∷◌, Option-cases, inl, inr,
}
use travel_llm_planner.Common.Raising.{ok}
use travel_llm_planner.Trips.{
  RevisionSource, TripRow, RevisionRow, Db, find_trip, find_revision, insert_trip, insert_revision,
  transaction,
}
use travel_llm_planner.Trips.Snapshot.{
  SaveTripRequest, Payload, snapshot_payload, build_snapshot, load_snapshot, detail_from_snapshot,
}
use travel_llm_planner.Trips.Repository.{new_trip, new_revision, create, save, get}
use travel_llm_planner.Trips.Rows.{find_trip_here}
use travel_llm_planner.Trips.Consistent.{IsConsistent}

-- The reader of JSON reads back what the writer wrote of the request.
abbrev pub IsReadBack : (Payload → String) → (String → Option Payload) → SaveTripRequest → Type 0
IsReadBack encode decode request =
    decode (encode (snapshot_payload request)) ≡ some (snapshot_payload request)

pub load_snapshot-encode :
    (encode : Payload → String) (decode : String → Option Payload) (request : SaveTripRequest)
    → IsReadBack encode decode request
    → load_snapshot decode (encode (snapshot_payload request)) "none"
      ≡ ok (snapshot_payload request)
unfolding load_snapshot
load_snapshot-encode encode decode request read_back = rw (read_back, load_snapshot) refl

-- A trip that is not there has no revisions.
no_revision :
    (sha256 : String → String) (db : Db) (id : String) (k : ℕ)
    → IsConsistent sha256 db
    → find_trip id db.trips ≡ none
    → find_revision id k db.trip_revisions ≡ none
no_revision sha256 db id k consistent absent =
    elim (Option-cases (find_revision id k db.trip_revisions)) [
      | inl missing ↦ missing
      | inr (r, found) ↦
          let (t, stands, below) = consistent.bounded id k r found in
          let clash : none ≡ some t = sym absent ∙ stands in cc
    ]

insert_trip_free :
    (t : TripRow) (db : Db)
    → find_trip t.id db.trips ≡ none
    → insert_trip t db ≡ ok (record db { trips = t ∷ db.trips })
unfolding insert_trip
insert_trip_free t db free = rw (free, insert_trip) refl

insert_revision_free :
    (r : RevisionRow) (db : Db)
    → find_revision r.trip_id r.revision db.trip_revisions ≡ none
    → insert_revision r db ≡ ok (record db { trip_revisions = r ∷ db.trip_revisions })
unfolding insert_revision
insert_revision_free r db free = rw (free, insert_revision) refl

module _ (encode : Payload → String) (decode : String → Option Payload)
    (sha256 : String → String) where
  -- The tables with both rows of the new trip.
  abbrev with_new : String → String → SaveTripRequest → Db → Db
  with_new trip_id now request db =
      let payload = snapshot_payload request in
      record {
        trips = new_trip encode decode sha256 trip_id request payload 0 now ∷ db.trips;
        trip_revisions =
            new_revision encode decode sha256 trip_id request payload 0 RevisionSource.created
              "Trip created" now
            ∷ db.trip_revisions;
      }

  create_total :
      (trip_id now : String) (request : SaveTripRequest) (db : Db)
      → IsConsistent sha256 db
      → find_trip trip_id db.trips ≡ none
      → create encode decode sha256 trip_id request
          (snapshot_payload request)
          0
          RevisionSource.created
          "Trip created"
          now
          now
          db
        ≡ ok (tt, with_new trip_id now request db)
  unfolding create
  create_total trip_id now request db consistent absent =
      let payload = snapshot_payload request in
      let t = new_trip encode decode sha256 trip_id request payload 0 now in
      let r =
        new_revision encode decode sha256 trip_id request payload 0 RevisionSource.created
          "Trip created" now in
      let free = no_revision sha256 db trip_id 0 consistent absent in
      let first = insert_trip_free t db absent in
      let second = insert_revision_free r (record db { trips = t ∷ db.trips }) free in
      rw (first, create) (rw second refl)

  save_total :
      (trip_id now : String) (request : SaveTripRequest) (db : Db)
      → IsReadBack encode decode request
      → IsConsistent sha256 db
      → find_trip trip_id db.trips ≡ none
      → save encode decode sha256 trip_id now request db ≡ (
        ok (detail_from_snapshot trip_id (snapshot_payload request) 0 now none),
        with_new trip_id now request db,
      )
  unfolding save build_snapshot
  save_total trip_id now request db read_back consistent absent =
      let loaded = load_snapshot-encode encode decode request read_back in
      let made = create_total trip_id now request db consistent absent in
      rw (loaded, save) (rw (made, transaction) refl)

  -- Saving under a new identifier succeeds, and reading the trip then gives the answer of the save,
  -- at revision 0 with the payload of the request.
  pub get-save :
      (trip_id now : String) (request : SaveTripRequest) (db : Db)
      → IsReadBack encode decode request
      → IsConsistent sha256 db
      → find_trip trip_id db.trips ≡ none
      → ((save encode decode sha256 trip_id now request db).0
          ≡ ok (detail_from_snapshot trip_id (snapshot_payload request) 0 now none))
        × (get encode decode sha256 trip_id (save encode decode sha256 trip_id now request db).1
            ≡ ok (some (detail_from_snapshot trip_id (snapshot_payload request) 0 now none)))
  unfolding get build_snapshot
  get-save trip_id now request db read_back consistent absent =
      let total = save_total trip_id now request db read_back consistent absent in
      let t = new_trip encode decode sha256 trip_id request (snapshot_payload request) 0 now in
      let here = find_trip_here trip_id t db.trips refl in
      let loaded = load_snapshot-encode encode decode request read_back in
      rw total (refl, rw (here, get) (rw loaded refl))
