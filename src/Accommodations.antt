-- ===== src/Accommodations.antt =====
-- src/accommodations: lodging stays and the stays that a day starts and ends in.
-- Dates are day numbers. Coordinates are millionths of a degree counted from 180 degrees west or
-- south, since the program only copies and compares them here. A stay in a list is told from
-- another by its position, as Python tells objects apart by identity.
pub mod Overlaps
pub mod Anchors
mod Tests
use Prim.Native.String.{count}
use travel_llm_planner.Common.{
  ℕ, zero, suc, ◌≤◌, ltb, leb, if◌then◌else◌, String, Bool, true, false, not, ◌&&◌, ◌||◌, Option,
  none, some, List, [], ◌∷◌, map, ◌==◌,
}
use travel_llm_planner.Clock.{Time}

pub record AccommodationStay : Type 0 where
  pub name : String
  pub lat : ℕ
  pub lng : ℕ
  pub check_in_date : ℕ
  pub check_out_date : ℕ
  pub check_in_from : Option Time
  pub check_out_by : Option Time

-- `Field(min_length=1, max_length=200)`
abbrev pub is_name : String → Bool
is_name s = leb 1 (count s) && leb (count s) 200

-- `validate_stay_covers_at_least_one_night`
unfoldable pub covers_a_night : AccommodationStay → Bool
covers_a_night stay = ltb stay.check_in_date stay.check_out_date

-- The fields' own constraints, then the model's.
unfoldable pub validate_stay : AccommodationStay → Bool
unfolding covers_a_night
validate_stay stay =
    is_name stay.name
    && leb 90_000_000 stay.lat
    && leb stay.lat 270_000_000
    && leb stay.lng 360_000_000
    && covers_a_night stay

unfoldable pub insert_stay : AccommodationStay → List AccommodationStay → List AccommodationStay
insert_stay s [] = s ∷ []
insert_stay s (t ∷ ts) =
    if leb s.check_in_date t.check_in_date then s ∷ t ∷ ts else t ∷ insert_stay s ts

-- `sorted(stays, key=check_in_date)`, which is stable.
unfoldable pub sort_stays : List AccommodationStay → List AccommodationStay
unfolding insert_stay
sort_stays [] = []
sort_stays (s ∷ ss) = insert_stay s (sort_stays ss)

unfoldable pub adjacent_apart : AccommodationStay → List AccommodationStay → Bool
adjacent_apart previous [] = true
adjacent_apart previous (current ∷ rest) =
    not (ltb current.check_in_date previous.check_out_date) && adjacent_apart current rest

abbrev pub chain_apart : List AccommodationStay → Bool
chain_apart [] = true
chain_apart (s ∷ ss) = adjacent_apart s ss

-- `validate_no_stay_overlaps`: false where it raises `ValueError`.
unfoldable pub validate_no_stay_overlaps : List AccommodationStay → Bool
unfolding sort_stays adjacent_apart
validate_no_stay_overlaps stays = chain_apart (sort_stays stays)

-- The anchors of a day: positions in the list of stays, with the stays there.
pub record DayAccommodationAnchors : Type 0 where
  pub start : Option (ℕ × AccommodationStay)
  pub end : Option (ℕ × AccommodationStay)

-- `next((stay for stay in stays if ...), None)`
unfoldable pub find_stay :
    (AccommodationStay → Bool) → ℕ → List AccommodationStay → Option (ℕ × AccommodationStay)
find_stay test i [] = none
find_stay test i (s ∷ ss) = if test s then some (i, s) else find_stay test (suc i) ss

abbrev pub woke_up_in : ℕ → AccommodationStay → Bool
woke_up_in day stay = ltb stay.check_in_date day && leb day stay.check_out_date

abbrev pub sleeps_in : ℕ → AccommodationStay → Bool
sleeps_in day stay = leb stay.check_in_date day && ltb day stay.check_out_date

-- The body of the loop of `resolve_day_anchors`.
unfoldable pub resolve_day : List AccommodationStay → ℕ → DayAccommodationAnchors
unfolding find_stay
resolve_day stays day = record {
  start = find_stay (woke_up_in day) 0 stays;
  end = find_stay (sleeps_in day) 0 stays;
}

unfoldable pub resolve_day_anchors : List ℕ → List AccommodationStay → List DayAccommodationAnchors
resolve_day_anchors dates stays = map (resolve_day stays) dates

abbrev differ : Option (ℕ × AccommodationStay) → Option (ℕ × AccommodationStay) → Bool
differ (some (i, s)) (some (j, t)) = not (i == j)
differ (some (i, s)) none = false
differ none end = false

-- `_is_transition_day` of src/optimizer/solver/models.py, and `_is_accommodation_transition_day` of
-- multi_day_service.py, which has the same body.
unfoldable pub is_transition_day : DayAccommodationAnchors → Bool
is_transition_day anchors = differ anchors.start anchors.end
