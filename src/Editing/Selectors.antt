-- ===== src/Editing/Selectors.antt =====
-- What a `stay_index` of a batch selects.
use travel_llm_planner.Common.{
  ℕ, zero, suc, ◌+◌, ◌≡◌, refl, ap, sym, ◌∙◌, leb, some, List, [], ◌∷◌, map, get_elem?, All,
  Bool-cases, arith, inl, inr,
}
use travel_llm_planner.Accommodations.{AccommodationStay, insert_stay, sort_stays}
use travel_llm_planner.Editing.Reconcile.{
  Placed, enumerate, insert_placed, sort_placed, sorted_positions,
}

abbrev stay_of : Placed → AccommodationStay
stay_of p = p.1

insert_placed-stays :
    (p : Placed) (ps : List Placed)
    → map stay_of (insert_placed p ps) ≡ insert_stay p.1 (map stay_of ps)
unfolding insert_placed insert_stay
insert_placed-stays (i, s) [] = refl
insert_placed-stays (i, s) ((j, t) ∷ ps) = elim (Bool-cases (leb s.check_in_date t.check_in_date)) [
  | inl first ↦ rw first refl
  | inr later ↦ rw later (ap (λ l. t ∷ l) (insert_placed-stays (i, s) ps))
]

sort_placed-stays : (ps : List Placed) → map stay_of (sort_placed ps) ≡ sort_stays (map stay_of ps)
unfolding sort_placed sort_stays
sort_placed-stays [] = refl
sort_placed-stays ((i, s) ∷ ps) =
    insert_placed-stays (i, s) (sort_placed ps) ∙ ap (insert_stay s) (sort_placed-stays ps)

enumerate-stays : (k : ℕ) (ss : List AccommodationStay) → map stay_of (enumerate k ss) ≡ ss
enumerate-stays k [] = refl
enumerate-stays k (s ∷ ss) = ap (λ l. s ∷ l) (enumerate-stays (suc k) ss)

sorted_positions-stays :
    (stays : List AccommodationStay) → map stay_of (sorted_positions stays) ≡ sort_stays stays
unfolding sorted_positions
sorted_positions-stays stays =
    sort_placed-stays (enumerate 0 stays) ∙ ap sort_stays (enumerate-stays 0 stays)

pub All-insert_placed :
    (P : Placed → Type 0) (p : Placed) (ps : List Placed)
    → P p
    → All P ps
    → All P (insert_placed p ps)
unfolding insert_placed
All-insert_placed P (i, s) [] h all = (h, tt)
All-insert_placed P (i, s) ((j, t) ∷ ps) h all =
    elim (Bool-cases (leb s.check_in_date t.check_in_date)) [
      | inl first ↦ rw first (h, all)
      | inr later ↦ rw later (all.0, All-insert_placed P (i, s) ps h all.1)
    ]

pub All-sort_placed : (P : Placed → Type 0) (ps : List Placed) → All P ps → All P (sort_placed ps)
unfolding sort_placed
All-sort_placed P [] all = tt
All-sort_placed P (p ∷ ps) all =
    All-insert_placed P p (sort_placed ps) all.0 (All-sort_placed P ps all.1)

-- The stay stands `k` places before its number.
abbrev StandsFrom : ℕ → List AccommodationStay → Placed → Type 0
StandsFrom k ss p = (m : ℕ) × (p.0 ≡ m + k) × (get_elem? ss m ≡ some p.1)

StandsFrom-cons :
    (k : ℕ) (s : AccommodationStay) (ss : List AccommodationStay) (ps : List Placed)
    → All (StandsFrom (suc k) ss) ps
    → All (StandsFrom k (s ∷ ss)) ps
StandsFrom-cons k s ss [] all = tt
StandsFrom-cons k s ss (p ∷ ps) ((m, number, at), all) =
    ((suc m, omega arith, at), StandsFrom-cons k s ss ps all)

enumerate-StandsFrom :
    (k : ℕ) (ss : List AccommodationStay) → All (StandsFrom k ss) (enumerate k ss)
enumerate-StandsFrom k [] = tt
enumerate-StandsFrom k (s ∷ ss) = (
  (0, omega arith, refl),
  StandsFrom-cons k s ss (enumerate (suc k) ss) (enumerate-StandsFrom (suc k) ss),
)

All-get_elem? :
    (P : Placed → Type 0) (ps : List Placed) (k : ℕ) {p : Placed}
    → All P ps
    → get_elem? ps k ≡ some p
    → P p
All-get_elem? P [] k all e = cc
All-get_elem? P (q ∷ ps) zero {p} all e = let same_one : p ≡ q = cc in rw same_one all.0
All-get_elem? P (q ∷ ps) (suc k) all e = All-get_elem? P ps k all.1 e

get_elem?-map :
    (ps : List Placed) (k : ℕ) {p : Placed}
    → get_elem? ps k ≡ some p
    → get_elem? (map stay_of ps) k ≡ some p.1
get_elem?-map [] k e = cc
get_elem?-map (q ∷ ps) zero {p} e = let same_one : p ≡ q = cc in rw same_one refl
get_elem?-map (q ∷ ps) (suc k) e = get_elem?-map ps k e

sorted_positions-StandsFrom :
    (stays : List AccommodationStay) → All (StandsFrom 0 stays) (sorted_positions stays)
unfolding sorted_positions
sorted_positions-StandsFrom stays =
    All-sort_placed (StandsFrom 0 stays) (enumerate 0 stays) (enumerate-StandsFrom 0 stays)

-- A selected position holds the stay that stands at the selector in order of check-in.
pub sorted_positions-at :
    (stays : List AccommodationStay) (k : ℕ) {p : Placed}
    → get_elem? (sorted_positions stays) k ≡ some p
    → (get_elem? stays p.0 ≡ some p.1) × (get_elem? (sort_stays stays) k ≡ some p.1)
sorted_positions-at stays k {p} e =
    let (m, number, at) =
      All-get_elem? (StandsFrom 0 stays) (sorted_positions stays) k
        (sorted_positions-StandsFrom stays) e in
    let same_place : p.0 ≡ m = omega arith in
    (
      rw same_place at,
      ap (λ l. get_elem? l k) (sym (sorted_positions-stays stays))
          ∙ get_elem?-map (sorted_positions stays) k e,
    )
