-- ===== src/Trips/Writes.antt =====
-- What each operation of the repository does to the tables, as one of three effects; a deletion is apart.
use travel_llm_planner.Common.{ℕ, suc, ◌≡◌, ◌≢◌, refl, ap, sym, ◌∙◌, String, none, some, List, ◌∷◌}
use travel_llm_planner.Common.Raising.{Raising, ok, raise}
use travel_llm_planner.Trips.{
  TripRow, RevisionRow, Db, TripError, find_trip, find_revision, insert_revision, transaction,
}
use travel_llm_planner.Trips.Repository.{compare_and_set}
use travel_llm_planner.Trips.Tables.{find_trip-update_trip, insert_revision-ok}
use travel_llm_planner.Trips.Consistent.{Records, compare_and_set-ok}

pub data Effect (sha256 : String → String) (db after : Db) : Type 0 where
  unchanged : after ≡ db → Effect sha256 db after
  created :
      (t : TripRow) (r : RevisionRow)
      → find_trip t.id db.trips ≡ none
      → Records t r
      → r.trip_id ≡ t.id
      → r.revision ≡ t.revision
      → r.snapshot_hash ≡ sha256 r.snapshot
      → find_revision r.trip_id r.revision db.trip_revisions ≡ none
      → after ≡ record { trips = t ∷ db.trips; trip_revisions = r ∷ db.trip_revisions }
      → Effect sha256 db after
  wrote :
      (id : String) (t u : TripRow) (us : List TripRow) (r : RevisionRow)
      → find_trip id db.trips ≡ some t
      → find_trip id us ≡ some u
      → ((j : String) → j ≢ id → find_trip j us ≡ find_trip j db.trips)
      → u.revision ≡ suc t.revision
      → Records u r
      → r.trip_id ≡ id
      → r.revision ≡ suc t.revision
      → r.snapshot_hash ≡ sha256 r.snapshot
      → find_revision r.trip_id r.revision db.trip_revisions ≡ none
      → after ≡ record { trips = us; trip_revisions = r ∷ db.trip_revisions }
      → Effect sha256 db after

-- A transaction that rolls back has no effect.
pub transaction-Effect :
    {V : Type 0} (sha256 : String → String) (db : Db) (body : Db → Raising TripError (V × Db))
    → ((result : V × Db) → body db ≡ ok result → Effect sha256 db result.1)
    → Effect sha256 db (transaction db body).1
transaction-Effect {V} sha256 db body commits = go (body db) commits
  where
    go :
        (m : Raising TripError (V × Db))
        → ((result : V × Db) → m ≡ ok result → Effect sha256 db result.1)
        → Effect sha256 db (transaction db (λ tx. m)).1
    go (ok result) done = done result refl
    go (raise error) done = Effect.unchanged refl

-- The update of a trip and the insertion of its row.
pub compare_and_set-Effect :
    (sha256 : String → String) (id : String) (k : ℕ) (set : TripRow → TripRow) (r : RevisionRow)
    (db : Db) {mid after : Db}
    → ((t : TripRow) → (set t).id ≡ t.id)
    → ((t : TripRow) → (set t).revision ≡ suc t.revision)
    → ((t : TripRow) → Records (set t) r)
    → r.trip_id ≡ id
    → r.revision ≡ suc k
    → r.snapshot_hash ≡ sha256 r.snapshot
    → compare_and_set id k set db ≡ ok mid
    → insert_revision r mid ≡ ok after
    → Effect sha256 db after
compare_and_set-Effect sha256 id k set r db {mid} {after} keeps next records of number hash set_ok
      inserted =
    let (us, hit, middle) = compare_and_set-ok id k set db set_ok in
    let (t, at, current, at_us, others) = find_trip-update_trip id k set db.trips keeps hit in
    let (free, last) = insert_revision-ok r mid inserted in
    Effect.wrote id t (set t) us r at at_us others (next t) (records t) of
      (number ∙ ap suc (sym current)) hash
      (ap (λ (d : Db). find_revision r.trip_id r.revision d.trip_revisions) middle ∙ free)
      (sym last ∙ ap (λ (d : Db). record d { trip_revisions = r ∷ d.trip_revisions }) (sym middle))
