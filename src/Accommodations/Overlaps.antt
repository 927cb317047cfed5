-- ===== src/Accommodations/Overlaps.antt =====
-- Comparing neighbours in check-in order is enough to find every overlap.
use travel_llm_planner.Common.{
  ◌≤◌, ◌<◌, ◌≡◌, ◌↔◌, refl, true, false, List, [], ◌∷◌, ◌⊎◌, inl, inr, All, All-map, Bool-cases,
  leb→le, arith, leb, ltb, not, &&-eq-true,
}
use travel_llm_planner.Accommodations.{
  AccommodationStay, insert_stay, sort_stays, adjacent_apart, chain_apart,
  validate_no_stay_overlaps,
}

-- Two stays share no night.
abbrev pub Apart : AccommodationStay → AccommodationStay → Type 0
Apart s t = (s.check_out_date ≤ t.check_in_date) ⊎ (t.check_out_date ≤ s.check_in_date)

-- Every two stays of the list share no night.
abbrev pub AllApart : List AccommodationStay → Type 0
AllApart [] = Unit {0}
AllApart (s ∷ ss) = All (Apart s) ss × AllApart ss

-- Each stay covers a night.
abbrev pub AllNights : List AccommodationStay → Type 0
AllNights = All (λ s. s.check_in_date < s.check_out_date)

All-insert :
    (P : AccommodationStay → Type 0) (s : AccommodationStay) (ss : List AccommodationStay)
    → P s
    → All P ss
    → All P (insert_stay s ss)
unfolding insert_stay
All-insert P s [] p all = (p, tt)
All-insert P s (t ∷ ts) p all = elim (Bool-cases (leb s.check_in_date t.check_in_date)) [
  | inl first ↦ rw first (p, all)
  | inr later ↦ rw later (all.0, All-insert P s ts p all.1)
]

insert-All :
    (P : AccommodationStay → Type 0) (s : AccommodationStay) (ss : List AccommodationStay)
    → All P (insert_stay s ss)
    → P s × All P ss
unfolding insert_stay
insert-All P s [] all = all
insert-All P s (t ∷ ts) all = elim (Bool-cases (leb s.check_in_date t.check_in_date)) [
  | inl first ↦ rw first at all
  | inr later ↦
      let (pt, rest) = go later all in let (ps, pts) = insert-All P s ts rest in (ps, (pt, pts))
]
  where
    go :
        leb s.check_in_date t.check_in_date ≡ false
        → All P (insert_stay s (t ∷ ts))
        → P t × All P (insert_stay s ts)
    go later h = rw (later, insert_stay) at h

All-sort :
    (P : AccommodationStay → Type 0) (ss : List AccommodationStay)
    → All P ss
    → All P (sort_stays ss)
unfolding sort_stays
All-sort P [] all = tt
All-sort P (s ∷ ss) all = All-insert P s (sort_stays ss) all.0 (All-sort P ss all.1)

pub Apart-symm : (s t : AccommodationStay) → Apart s t → Apart t s
Apart-symm s t (inl h) = inr h
Apart-symm s t (inr h) = inl h

AllApart-insert :
    (s : AccommodationStay) (ss : List AccommodationStay)
    → All (Apart s) ss
    → AllApart ss
    → AllApart (insert_stay s ss)
unfolding insert_stay
AllApart-insert s [] new old = (tt, tt)
AllApart-insert s (t ∷ ts) new old = elim (Bool-cases (leb s.check_in_date t.check_in_date)) [
  | inl first ↦ rw first (new, old)
  | inr later ↦
      rw later
        (All-insert (Apart t) s ts (Apart-symm s t new.0) old.0, AllApart-insert s ts new.1 old.1)
]

insert-AllApart :
    (s : AccommodationStay) (ss : List AccommodationStay)
    → AllApart (insert_stay s ss)
    → All (Apart s) ss × AllApart ss
unfolding insert_stay
insert-AllApart s [] h = h
insert-AllApart s (t ∷ ts) h = elim (Bool-cases (leb s.check_in_date t.check_in_date)) [
  | inl first ↦ rw first at h
  | inr later ↦
      let (far, rest) = go later h in
      let (ps, pts) = insert-All (Apart t) s ts far in
      let (new, old) = insert-AllApart s ts rest in ((Apart-symm t s ps, new), (pts, old))
]
  where
    go :
        leb s.check_in_date t.check_in_date ≡ false
        → AllApart (insert_stay s (t ∷ ts))
        → All (Apart t) (insert_stay s ts) × AllApart (insert_stay s ts)
    go later h = rw (later, insert_stay) at h

sort-All :
    (P : AccommodationStay → Type 0) (ss : List AccommodationStay)
    → All P (sort_stays ss)
    → All P ss
unfolding sort_stays
sort-All P [] all = tt
sort-All P (s ∷ ss) all =
    let (p, rest) = insert-All P s (sort_stays ss) all in (p, sort-All P ss rest)

AllApart-sort : (ss : List AccommodationStay) → AllApart ss → AllApart (sort_stays ss)
unfolding sort_stays
AllApart-sort [] h = tt
AllApart-sort (s ∷ ss) (new, old) =
    AllApart-insert s (sort_stays ss) (All-sort (Apart s) ss new) (AllApart-sort ss old)

sort-AllApart : (ss : List AccommodationStay) → AllApart (sort_stays ss) → AllApart ss
unfolding sort_stays
sort-AllApart [] h = tt
sort-AllApart (s ∷ ss) h =
    let (new, old) = insert-AllApart s (sort_stays ss) h in
    (sort-All (Apart s) ss new, sort-AllApart ss old)

-- In order of check-in.
abbrev IsSorted : List AccommodationStay → Type 0
IsSorted [] = Unit {0}
IsSorted (s ∷ ss) = All (λ t. s.check_in_date ≤ t.check_in_date) ss × IsSorted ss

insert-IsSorted :
    (s : AccommodationStay) (ss : List AccommodationStay)
    → IsSorted ss
    → IsSorted (insert_stay s ss)
unfolding insert_stay
insert-IsSorted s [] sorted = (tt, tt)
insert-IsSorted s (t ∷ ts) (least, sorted) =
    elim (Bool-cases (leb s.check_in_date t.check_in_date)) [
      | inl first ↦
          let le : s.check_in_date ≤ t.check_in_date = leb→le _ _ first in
          rw first (
            (
              le,
              All-map (λ u. t.check_in_date ≤ u.check_in_date)
                  (λ u. s.check_in_date ≤ u.check_in_date) (λ u h. omega arith) ts least,
            ),
            (least, sorted),
          )
      | inr later ↦ rw later (
        All-insert (λ u. t.check_in_date ≤ u.check_in_date) s ts (ground (arith, later, leb)) least,
        insert-IsSorted s ts sorted,
      )
    ]

sort-IsSorted : (ss : List AccommodationStay) → IsSorted (sort_stays ss)
unfolding sort_stays
sort-IsSorted [] = tt
sort-IsSorted (s ∷ ss) = insert-IsSorted s (sort_stays ss) (sort-IsSorted ss)

-- The second stay starts when the first is over, or later.
abbrev After : AccommodationStay → AccommodationStay → Type 0
After s t = s.check_out_date ≤ t.check_in_date

-- Where neighbours with nights are apart, all the later ones start after a stay.
adjacent-All :
    (s : AccommodationStay) (ss : List AccommodationStay)
    → AllNights ss
    → adjacent_apart s ss ≡ true
    → All (After s) ss × AllApart ss
unfolding adjacent_apart
adjacent-All s [] nights ok = (tt, tt)
adjacent-All s (t ∷ ts) (night, nights) ok =
    let (now, later) =
      &&-eq-true (not (ltb t.check_in_date s.check_out_date)) (adjacent_apart t ts) ok in
    let (far, rest) = adjacent-All t ts nights later in
    let le : s.check_out_date ≤ t.check_in_date = ground (arith, now, ltb) in
    (
      (le, All-map (After t) (After s) (λ u h. omega arith) ts far),
      (All-map (After t) (Apart t) (λ u h. inl h) ts far, rest),
    )

All-adjacent :
    (s : AccommodationStay) (ss : List AccommodationStay)
    → AllNights (s ∷ ss)
    → IsSorted (s ∷ ss)
    → AllApart (s ∷ ss)
    → adjacent_apart s ss ≡ true
unfolding adjacent_apart
All-adjacent s [] nights sorted h = refl
All-adjacent s (t ∷ ts) (night, (nt, nights)) ((le, least), sorted) ((far, fars), rest) =
    let ih = All-adjacent t ts (nt, nights) sorted rest in
    elim far [
      | inl apart ↦ ground (arith, ih, ltb, apart)
      | inr apart ↦ ground (arith, ih, ltb, apart, le, nt)
    ]

chain-AllApart :
    (ss : List AccommodationStay)
    → AllNights ss
    → IsSorted ss
    → (chain_apart ss ≡ true) ↔ AllApart ss
chain-AllApart [] nights sorted = (λ h. tt, λ h. refl)
chain-AllApart (s ∷ ss) nights sorted = (
  λ h.
      let (far, rest) = adjacent-All s ss nights.1 h in
      (All-map (After s) (Apart s) (λ u k. inl k) ss far, rest),
  All-adjacent s ss nights sorted,
)

-- For stays that each cover a night, given in any order, `validate_no_stay_overlaps` accepts exactly
-- the lists in which no two stays share a night.
pub validate_no_stay_overlaps_iff :
    (stays : List AccommodationStay)
    → AllNights stays
    → (validate_no_stay_overlaps stays ≡ true) ↔ AllApart stays
unfolding validate_no_stay_overlaps
validate_no_stay_overlaps_iff stays nights =
    let night = λ (s : AccommodationStay). s.check_in_date < s.check_out_date in
    let (there, back) =
      chain-AllApart (sort_stays stays) (All-sort night stays nights) (sort-IsSorted stays) in
    (λ h. sort-AllApart stays (there h), λ h. back (AllApart-sort stays h))
