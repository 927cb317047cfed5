-- ===== src/Trips/Rows.antt =====
-- Looking up the rows of a table to which a row is added.
use travel_llm_planner.Common.{
  ℕ, ◌≡◌, refl, ap, sym, ◌∙◌, subst, ◌==◌, same, same→eq, same_refl, String, true, ◌&&◌, &&-eq-true,
  none, some, List, [], ◌∷◌, Bool-cases, arith, inl, inr, ◌⊎◌,
}
use travel_llm_planner.Trips.{TripRow, RevisionRow, find_trip, find_revision}

eq_same : (a b : String) → a ≡ b → same a b ≡ true
eq_same a b e = subst (λ c. same a c ≡ true) e (same_refl a)

pub find_trip-id :
    (id : String) (ts : List TripRow) {t : TripRow} → find_trip id ts ≡ some t → t.id ≡ id
unfolding find_trip
find_trip-id id [] e = cc
find_trip-id id (u ∷ us) {t} e = elim (Bool-cases (same u.id id)) [
  | inl hit ↦
      let first : some u ≡ some t = rw (hit, find_trip) at e in
      let found : u ≡ t = cc in subst (λ (v : TripRow). v.id ≡ id) found (same→eq u.id id hit)
  | inr miss ↦ find_trip-id id us (rw (miss, find_trip) at e)
]

-- A trip put in front is the one of its identifier, and hides no other.
pub find_trip_cons :
    (j : String) (t : TripRow) (ts : List TripRow) {u : TripRow}
    → find_trip j (t ∷ ts) ≡ some u
    → ((t.id ≡ j) × (t ≡ u)) ⊎ (find_trip j ts ≡ some u)
unfolding find_trip
find_trip_cons j t ts {u} e = elim (Bool-cases (same t.id j)) [
  | inl hit ↦ let first : some t ≡ some u = rw (hit, find_trip) at e in inl (same→eq t.id j hit, cc)
  | inr miss ↦ inr (rw (miss, find_trip) at e)
]

pub find_trip_here :
    (j : String) (t : TripRow) (ts : List TripRow) → t.id ≡ j → find_trip j (t ∷ ts) ≡ some t
unfolding find_trip
find_trip_here j t ts e = let hit = eq_same t.id j e in rw hit refl

pub find_trip_past :
    (j : String) (t : TripRow) (ts : List TripRow) {u : TripRow}
    → find_trip t.id ts ≡ none
    → find_trip j ts ≡ some u
    → find_trip j (t ∷ ts) ≡ some u
unfolding find_trip
find_trip_past j t ts {u} free e = elim (Bool-cases (same t.id j)) [
  | inl hit ↦
      let clash : none ≡ some u =
        sym (ap (λ i. find_trip i ts) (sym (same→eq t.id j hit)) ∙ free) ∙ e in
      cc
  | inr miss ↦ rw miss e
]

pub find_revision_key :
    (id : String) (k : ℕ) (rs : List RevisionRow) {r : RevisionRow}
    → find_revision id k rs ≡ some r
    → (r.trip_id ≡ id) × (r.revision ≡ k)
unfolding find_revision
find_revision_key id k [] e = cc
find_revision_key id k (q ∷ qs) {r} e = elim (Bool-cases (same q.trip_id id && q.revision == k)) [
  | inl hit ↦
      let first : some q ≡ some r = rw (hit, find_revision) at e in
      let found : q ≡ r = cc in
      let (alike, at) = &&-eq-true (same q.trip_id id) (q.revision == k) hit in
      subst (λ (v : RevisionRow). (v.trip_id ≡ id) × (v.revision ≡ k)) found
        (same→eq q.trip_id id alike, ground (arith, at))
  | inr miss ↦ find_revision_key id k qs (rw (miss, find_revision) at e)
]

pub find_revision_cons :
    (j : String) (k : ℕ) (r : RevisionRow) (rs : List RevisionRow) {q : RevisionRow}
    → find_revision j k (r ∷ rs) ≡ some q
    → ((r.trip_id ≡ j) × (r.revision ≡ k) × (r ≡ q)) ⊎ (find_revision j k rs ≡ some q)
unfolding find_revision
find_revision_cons j k r rs {q} e = elim (Bool-cases (same r.trip_id j && r.revision == k)) [
  | inl hit ↦
      let first : some r ≡ some q = rw (hit, find_revision) at e in
      let (alike, at) = &&-eq-true (same r.trip_id j) (r.revision == k) hit in
      inl (same→eq r.trip_id j alike, ground (arith, at), cc)
  | inr miss ↦ inr (rw (miss, find_revision) at e)
]

pub find_revision_here :
    (j : String) (k : ℕ) (r : RevisionRow) (rs : List RevisionRow)
    → r.trip_id ≡ j
    → r.revision ≡ k
    → find_revision j k (r ∷ rs) ≡ some r
unfolding find_revision
find_revision_here j k r rs e at = let hit = eq_same r.trip_id j e in ground (arith, hit, at)

pub find_revision_past :
    (j : String) (k : ℕ) (r : RevisionRow) (rs : List RevisionRow) {q : RevisionRow}
    → find_revision r.trip_id r.revision rs ≡ none
    → find_revision j k rs ≡ some q
    → find_revision j k (r ∷ rs) ≡ some q
unfolding find_revision
find_revision_past j k r rs {q} free e = elim (Bool-cases (same r.trip_id j && r.revision == k)) [
  | inl hit ↦
      let (alike, at) = &&-eq-true (same r.trip_id j) (r.revision == k) hit in
      let number : r.revision ≡ k = ground (arith, at) in
      let moved : find_revision j k rs ≡ find_revision r.trip_id r.revision rs =
        ap (λ i. find_revision i k rs) (sym (same→eq r.trip_id j alike))
        ∙ ap (λ n. find_revision r.trip_id n rs) (sym number) in
      let clash : none ≡ some q = sym (moved ∙ free) ∙ e in cc
  | inr miss ↦ rw miss e
]
