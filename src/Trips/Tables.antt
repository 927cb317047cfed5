-- ===== src/Trips/Tables.antt =====
-- The laws of the tables: what a statement leaves at each key.
use travel_llm_planner.Common.{
  ℕ, ◌≡◌, ◌≢◌, refl, ap, sym, ◌∙◌, ◌==◌, same, same→eq, same_false→ne, if◌then◌else◌, String, true,
  false, none, some, List, [], ◌∷◌, Bool-cases, Option-cases, arith, inl, inr,
}
use travel_llm_planner.Common.Raising.{ok}
use travel_llm_planner.Trips.{
  TripRow, RevisionRow, Db, find_trip, find_revision, insert_trip, insert_revision, update_trip,
  delete_trip, delete_revisions,
}

same_other : (a b c : String) → same a b ≡ false → same a c ≡ true → same b c ≡ false
same_other a b c differ hit = elim (Bool-cases (same b c)) [
  | inl also ↦
      let equal : a ≡ b = same→eq a c hit ∙ sym (same→eq b c also) in
      absurd (same_false→ne a b differ equal)
  | inr not_also ↦ not_also
]

elsewhere : (a id j : String) → same a id ≡ true → j ≢ id → same a j ≡ false
elsewhere a id j here other = elim (Bool-cases (same a j)) [
  | inl also ↦ absurd (other (sym (same→eq a j also) ∙ same→eq a id here))
  | inr away ↦ away
]

-- An update by key succeeds on the row of that key and revision, and changes no other key.
pub find_trip-update_trip :
    (id : String) (k : ℕ) (set : TripRow → TripRow) (ts : List TripRow) {us : List TripRow}
    → ((t : TripRow) → (set t).id ≡ t.id)
    → update_trip id k set ts ≡ some us
    → (t : TripRow) × (find_trip id ts ≡ some t)
      × (t.revision ≡ k)
      × (find_trip id us ≡ some (set t))
      × ((j : String) → j ≢ id → find_trip j us ≡ find_trip j ts)
unfolding update_trip find_trip
find_trip-update_trip id k set [] keeps e = cc
find_trip-update_trip id k set (t ∷ ts) {us} keeps e = elim (Bool-cases (same t.id id)) [
  | inl here ↦ elim (Bool-cases (t.revision == k)) [
    | inl current ↦
        let done : some (set t ∷ ts) ≡ some us = rw (here, update_trip, current) at e in
        let result : set t ∷ ts ≡ us = cc in
        let kept : same (set t).id id ≡ true = ap (λ i. same i id) (keeps t) ∙ here in
        (
          t,
          rw here refl,
          ground (arith, current),
          rw (sym result, kept) refl,
          λ j other.
              let away : same t.id j ≡ false = elsewhere t.id id j here other in
              let still : same (set t).id j ≡ false = ap (λ i. same i j) (keeps t) ∙ away in
              rw (sym result, still, away) refl,
        )
    | inr stale ↦ let failed : none ≡ some us = rw (here, update_trip, stale) at e in cc
  ]
  | inr there ↦ elim (Option-cases (update_trip id k set ts)) [
    | inl missed ↦ let failed : none ≡ some us = rw (there, update_trip, missed) at e in cc
    | inr (vs, hit) ↦
        let done : some (t ∷ vs) ≡ some us = rw (there, update_trip, hit) at e in
        let result : t ∷ vs ≡ us = cc in
        let (u, found, current, written, others) = find_trip-update_trip id k set ts keeps hit in
        (
          u,
          rw there found,
          current,
          rw (sym result, there) written,
          λ j other. rw (sym result) (ap (λ l. if same t.id j then some t else l) (others j other)),
        )
  ]
]

pub insert_trip-ok :
    (t : TripRow) (db : Db) {after : Db}
    → insert_trip t db ≡ ok after
    → (find_trip t.id db.trips ≡ none) × (record db { trips = t ∷ db.trips } ≡ after)
unfolding insert_trip
insert_trip-ok t db e = elim (Option-cases (find_trip t.id db.trips)) [
  | inl free ↦ let done = rw (free, insert_trip) at e in (free, cc)
  | inr (u, taken) ↦ let failed = rw (taken, insert_trip) at e in cc
]

pub insert_revision-ok :
    (r : RevisionRow) (db : Db) {after : Db}
    → insert_revision r db ≡ ok after
    → (find_revision r.trip_id r.revision db.trip_revisions ≡ none)
      × (record db { trip_revisions = r ∷ db.trip_revisions } ≡ after)
unfolding insert_revision
insert_revision-ok r db e =
    elim (Option-cases (find_revision r.trip_id r.revision db.trip_revisions)) [
      | inl free ↦ let done = rw (free, insert_revision) at e in (free, cc)
      | inr (u, taken) ↦ let failed = rw (taken, insert_revision) at e in cc
    ]

pub find_trip-delete_trip :
    (id j : String) (ts : List TripRow)
    → find_trip j (delete_trip id ts) ≡ (if same id j then none else find_trip j ts)
unfolding delete_trip find_trip
find_trip-delete_trip id j [] = elim (Bool-cases (same id j)) [
  | inl hit ↦ rw hit refl
  | inr away ↦ rw away refl
]
find_trip-delete_trip id j (t ∷ ts) =
    let ih = find_trip-delete_trip id j ts in
    elim (Bool-cases (same t.id id)) [
      | inl gone ↦
          let alike : same t.id j ≡ same id j = ap (λ i. same i j) (same→eq t.id id gone) in
          elim (Bool-cases (same id j)) [
            | inl hit ↦ ground (arith, ih, gone, hit)
            | inr away ↦
                let also : same t.id j ≡ false = alike ∙ away in
                ground (arith, ih, gone, away, also)
          ]
      | inr stays ↦ elim (Bool-cases (same t.id j)) [
        | inl hit ↦
            let away = same_other t.id id j stays hit in ground (arith, ih, stays, hit, away)
        | inr miss ↦ ground (arith, ih, stays, miss)
      ]
    ]

pub find_revision-delete_revisions :
    (id j : String) (k : ℕ) (rs : List RevisionRow)
    → find_revision j k (delete_revisions id rs)
      ≡ (if same id j then none else find_revision j k rs)
unfolding delete_revisions find_revision
find_revision-delete_revisions id j k [] = elim (Bool-cases (same id j)) [
  | inl hit ↦ rw hit refl
  | inr away ↦ rw away refl
]
find_revision-delete_revisions id j k (r ∷ rs) =
    let ih = find_revision-delete_revisions id j k rs in
    elim (Bool-cases (same r.trip_id id)) [
      | inl gone ↦
          let alike : same r.trip_id j ≡ same id j =
            ap (λ i. same i j) (same→eq r.trip_id id gone) in
          elim (Bool-cases (same id j)) [
            | inl hit ↦ ground (arith, ih, gone, hit)
            | inr away ↦
                let also : same r.trip_id j ≡ false = alike ∙ away in
                ground (arith, ih, gone, away, also)
          ]
      | inr stays ↦ elim (Bool-cases (same r.trip_id j)) [
        | inl hit ↦
            let away = same_other r.trip_id id j stays hit in ground (arith, ih, stays, hit, away)
        | inr miss ↦ ground (arith, ih, stays, miss)
      ]
    ]
