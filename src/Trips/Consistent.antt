-- ===== src/Trips/Consistent.antt =====
-- When the two tables fit each other, and that the pairs of writes of the repository keep them so.
use travel_llm_planner.Common.{
  ℕ, suc, ◌≡◌, ◌≢◌, ◌≤◌, refl, ap, sym, ◌∙◌, subst, same, same→eq, same_false→ne, String, Bool,
  true, false, Option, none, some, List, ◌∷◌, Bool-cases, Option-cases, arith, inl, inr,
  if◌then◌else◌,
}
use travel_llm_planner.Common.Raising.{ok}
use travel_llm_planner.Trips.{
  TripRow, RevisionRow, Db, TripError, find_trip, find_revision, update_trip, delete_trip,
  delete_revisions,
}
use travel_llm_planner.Trips.Repository.{row_or, compare_and_set}
use travel_llm_planner.Trips.Tables.{find_trip-delete_trip, find_revision-delete_revisions}
use travel_llm_planner.Trips.Rows.{
  find_trip_cons, find_trip_here, find_trip_past, find_revision_cons, find_revision_here,
  find_revision_past,
}

-- The revision row records the state of the trip row.
abbrev pub Records : TripRow → RevisionRow → Type 0
Records t r =
    (r.snapshot ≡ t.snapshot)
    × (r.snapshot_hash ≡ t.snapshot_hash)
    × (r.schema_version ≡ t.schema_version)

-- Each row holds the hash of its snapshot.
abbrev pub AllHashed : (String → String) → Db → Type 0
AllHashed sha256 db =
    (id : String) (k : ℕ) (r : RevisionRow)
    → find_revision id k db.trip_revisions ≡ some r
    → r.snapshot_hash ≡ sha256 r.snapshot

-- Each trip has a revision row that records its current state, each revision row belongs to a trip
-- that is at that revision or beyond it, and holds the hash of its snapshot.
pub record IsConsistent (sha256 : String → String) (db : Db) : Type 0 where
  pub backed :
      (id : String) (t : TripRow)
      → find_trip id db.trips ≡ some t
      → (r : RevisionRow) × (find_revision id t.revision db.trip_revisions ≡ some r) × Records t r
  pub bounded :
      (id : String) (k : ℕ) (r : RevisionRow)
      → find_revision id k db.trip_revisions ≡ some r
      → (t : TripRow) × (find_trip id db.trips ≡ some t) × (k ≤ t.revision)
  pub hashed :
      (id : String) (k : ℕ) (r : RevisionRow)
      → find_revision id k db.trip_revisions ≡ some r
      → r.snapshot_hash ≡ sha256 r.snapshot

pub row_or-ok :
    {A : Type 0} (o : Option A) (error : TripError) {a : A} → row_or o error ≡ ok a → o ≡ some a
row_or-ok none error e = cc
row_or-ok (some b) error {a} e = let equal : b ≡ a = cc in rw equal refl

pub compare_and_set-ok :
    (id : String) (k : ℕ) (set : TripRow → TripRow) (db : Db) {after : Db}
    → compare_and_set id k set db ≡ ok after
    → (us : List TripRow) × (update_trip id k set db.trips ≡ some us)
      × (record db { trips = us } ≡ after)
unfolding compare_and_set
compare_and_set-ok id k set db {after} e = elim (Option-cases (update_trip id k set db.trips)) [
  | inl missed ↦ let failed = rw (missed, compare_and_set) at e in cc
  | inr (us, hit) ↦ let done = rw (hit, compare_and_set) at e in (us, hit, cc)
]

-- A row that is still there is another trip's, and was there before.
kept_row :
    {A : Type 0} (gone : Bool) (o : Option A) {v : A}
    → (if gone then none else o) ≡ some v
    → (gone ≡ false) × (o ≡ some v)
kept_row true o e = cc
kept_row false o e = (refl, e)

module _ (sha256 : String → String) (db : Db) (ok_before : IsConsistent sha256 db) where
  -- A trip written anew at the next revision, together with the row that records it.
  pub write-IsConsistent :
      (id : String) (t : TripRow) (u : TripRow) (us : List TripRow) (r : RevisionRow)
      → find_trip id db.trips ≡ some t
      → find_trip id us ≡ some u
      → ((j : String) → j ≢ id → find_trip j us ≡ find_trip j db.trips)
      → u.revision ≡ suc t.revision
      → Records u r
      → r.trip_id ≡ id
      → r.revision ≡ suc t.revision
      → r.snapshot_hash ≡ sha256 r.snapshot
      → find_revision r.trip_id r.revision db.trip_revisions ≡ none
      → IsConsistent sha256 (record { trips = us; trip_revisions = r ∷ db.trip_revisions })
  write-IsConsistent id t u us r at written others next records of number hash free = record {
    backed = λ j v found. elim (Bool-cases (same j id)) [
      | inl this ↦
          let mine : j ≡ id = same→eq j id this in
          let equal : some u ≡ some v = sym written ∙ ap (λ i. find_trip i us) (sym mine) ∙ found in
          let result : u ≡ v = cc in
          subst
            (λ (w : TripRow).
              (q : RevisionRow) × (find_revision j w.revision (r ∷ db.trip_revisions) ≡ some q)
              × Records w q)
            result
            (
              r,
              find_revision_here j u.revision r db.trip_revisions (of ∙ sym mine)
                  (number ∙ sym next),
              records,
            )
      | inr that ↦
          let old : find_trip j db.trips ≡ some v =
            sym (others j (same_false→ne j id that)) ∙ found in
          let (q, there, kept) = ok_before.backed j v old in
          (q, find_revision_past j v.revision r db.trip_revisions free there, kept)
    ];
    bounded = λ j k q found. elim (find_revision_cons j k r db.trip_revisions found) [
      | inl (mine, here, equal) ↦
          let this : id ≡ j = sym of ∙ mine in
          (u, ap (λ i. find_trip i us) (sym this) ∙ written, omega arith)
      | inr older ↦
          let (v, stands, below) = ok_before.bounded j k q older in
          elim (Bool-cases (same j id)) [
            | inl this ↦
                let mine : j ≡ id = same→eq j id this in
                let equal : some t ≡ some v =
                  sym at ∙ ap (λ i. find_trip i db.trips) (sym mine) ∙ stands in
                let result : t ≡ v = cc in
                let number_kept : t.revision ≡ v.revision =
                  ap (λ (w : TripRow). w.revision) result in
                (u, ap (λ i. find_trip i us) mine ∙ written, omega arith)
            | inr that ↦ (v, others j (same_false→ne j id that) ∙ stands, below)
          ]
    ];
    hashed = λ j k q found. elim (find_revision_cons j k r db.trip_revisions found) [
      | inl (mine, here, equal) ↦
          subst (λ (w : RevisionRow). w.snapshot_hash ≡ sha256 w.snapshot) equal hash
      | inr older ↦ ok_before.hashed j k q older
    ];
  }

  -- A new trip, together with its first row.
  pub create-IsConsistent :
      (t : TripRow) (r : RevisionRow)
      → find_trip t.id db.trips ≡ none
      → Records t r
      → r.trip_id ≡ t.id
      → r.revision ≡ t.revision
      → r.snapshot_hash ≡ sha256 r.snapshot
      → find_revision r.trip_id r.revision db.trip_revisions ≡ none
      → IsConsistent sha256
          (record { trips = t ∷ db.trips; trip_revisions = r ∷ db.trip_revisions })
  create-IsConsistent t r fresh records of number hash free = record {
    backed = λ j v found. elim (find_trip_cons j t db.trips found) [
      | inl (mine, result) ↦
          subst
            (λ (w : TripRow).
              (q : RevisionRow) × (find_revision j w.revision (r ∷ db.trip_revisions) ≡ some q)
              × Records w q)
            result
            (r, find_revision_here j t.revision r db.trip_revisions (of ∙ mine) number, records)
      | inr old ↦
          let (q, there, kept) = ok_before.backed j v old in
          (q, find_revision_past j v.revision r db.trip_revisions free there, kept)
    ];
    bounded = λ j k q found. elim (find_revision_cons j k r db.trip_revisions found) [
      | inl (mine, here, equal) ↦ (t, find_trip_here j t db.trips (sym of ∙ mine), omega arith)
      | inr older ↦
          let (v, stands, below) = ok_before.bounded j k q older in
          (v, find_trip_past j t db.trips fresh stands, below)
    ];
    hashed = λ j k q found. elim (find_revision_cons j k r db.trip_revisions found) [
      | inl (mine, here, equal) ↦
          subst (λ (w : RevisionRow). w.snapshot_hash ≡ sha256 w.snapshot) equal hash
      | inr older ↦ ok_before.hashed j k q older
    ];
  }

  -- A trip deleted, together with all its rows.
  pub delete-IsConsistent :
      (id : String)
      → IsConsistent sha256 (record {
        trips = delete_trip id db.trips;
        trip_revisions = delete_revisions id db.trip_revisions;
      })
  delete-IsConsistent id =
      let trips_at = λ (j : String). find_trip-delete_trip id j db.trips in
      let rows_at =
        λ (j : String) (k : ℕ). find_revision-delete_revisions id j k db.trip_revisions in
      record {
        backed = λ j v found.
            let (other, old) =
              kept_row (same id j) (find_trip j db.trips) (sym (trips_at j) ∙ found) in
            let (q, there, kept) = ok_before.backed j v old in
            (q, rows_at j v.revision ∙ rw other there, kept);
        bounded = λ j k q found.
            let (other, old) =
              kept_row (same id j) (find_revision j k db.trip_revisions)
                (sym (rows_at j k) ∙ found) in
            let (v, stands, below) = ok_before.bounded j k q old in
            (v, trips_at j ∙ rw other stands, below);
        hashed = λ j k q found.
            let (other, old) =
              kept_row (same id j) (find_revision j k db.trip_revisions)
                (sym (rows_at j k) ∙ found) in
            ok_before.hashed j k q old;
      }
