-- ===== src/Accommodations/Tests.antt =====
-- Two weeks in two towns: the stays, out of order, and the theorems applied to them.
use travel_llm_planner.Common.{◌≡◌, ◌↔◌, refl, true, false, none, List, [], ◌∷◌, arith}
use travel_llm_planner.Accommodations.{
  AccommodationStay, validate_stay, covers_a_night, insert_stay, sort_stays, adjacent_apart,
  validate_no_stay_overlaps, find_stay, resolve_day, is_transition_day,
}
use travel_llm_planner.Accommodations.Overlaps.{AllApart, validate_no_stay_overlaps_iff}
use travel_llm_planner.Accommodations.Anchors.{Changeover, is_transition_day_iff}

abbrev hotel : AccommodationStay
hotel = record {
  name = "Hotel";
  lat = 140_000_000;
  lng = 200_000_000;
  check_in_date = 10;
  check_out_date = 13;
  check_in_from = none;
  check_out_by = none;
}

abbrev hostel : AccommodationStay
hostel = record {
  name = "Hostel";
  lat = 141_000_000;
  lng = 201_000_000;
  check_in_date = 13;
  check_out_date = 15;
  check_in_from = none;
  check_out_by = none;
}

abbrev lodgings : List AccommodationStay
lodgings = hostel ∷ hotel ∷ []

lodgings_apart : validate_no_stay_overlaps lodgings ≡ true
unfolding validate_no_stay_overlaps sort_stays insert_stay adjacent_apart
lodgings_apart = refl

hotel_valid : validate_stay hotel ≡ true
unfolding validate_stay covers_a_night
hotel_valid = refl

changes_on_13 : is_transition_day (resolve_day lodgings 13) ≡ true
unfolding is_transition_day resolve_day find_stay
changes_on_13 = refl

stays_on_14 : is_transition_day (resolve_day lodgings 14) ≡ false
unfolding is_transition_day resolve_day find_stay
stays_on_14 = refl

validate_no_stay_overlaps_iff_example :
    (validate_no_stay_overlaps lodgings ≡ true) ↔ AllApart lodgings
validate_no_stay_overlaps_iff_example = validate_no_stay_overlaps_iff lodgings (omega arith)

is_transition_day_iff_example :
    (is_transition_day (resolve_day lodgings 13) ≡ true) ↔ Changeover lodgings 13
is_transition_day_iff_example = is_transition_day_iff lodgings 13 (omega arith)
