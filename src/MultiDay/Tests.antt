-- ===== src/MultiDay/Tests.antt =====
-- A trip of three days: two stays, a transfer on the second day, and a place without coordinates.
use mathlib.Core.List.Perm
use travel_llm_planner.Common.{
  ℕ, ◌+◌, ◌-◌, ◌≡◌, refl, String, true, Option, none, some, List, [], ◌∷◌, Dict, lookup, arith, ◌≤◌,
  ◌⊎◌, length, map,
}
use travel_llm_planner.Common.Counting.{occurrences, SameItems}
use travel_llm_planner.Common.Raising.{Raising, ok, raise, for_each}
use travel_llm_planner.Clock.{Time, resolve_day_bound_s}
use travel_llm_planner.Matrix.{TransportMode, walk}
use travel_llm_planner.Accommodations.{
  AccommodationStay, validate_stay, covers_a_night, insert_stay, sort_stays, adjacent_apart,
  validate_no_stay_overlaps, find_stay, resolve_day, is_transition_day,
}
use travel_llm_planner.Planner.{
  DaySlot, PlaceDayPreference, DayConfig, TransferBlock, MultiDayRequest, validate_request,
  validate_fields, validate_model, validate_day, validate_transfer, validate_day_indices,
  validate_transfers_on_transition_days, validate_transfer_day_config_conflict, are_unique,
  are_unique_ids, is_among, is_among_ids, validate_day_range, validate_day_end_time_semantics,
  place_ids,
}
use travel_llm_planner.Places.{PlaceDoc, visit_min, priority_of, google_weekday}
use travel_llm_planner.Service.{Failure}
use travel_llm_planner.Service.Eligible.{Coord}
use travel_llm_planner.Service.Route.{MatrixAnswer}
use travel_llm_planner.MultiDay.{
  TransitionDayContext, transition_day_context, bound_or, resolve_segment_end_bound_fields,
}
use travel_llm_planner.MultiDay.Windows.{
  IsWithin, transition_day_context-IsWithin, transition_day_context-IsInside,
  resolve_segment_end_bound_fields-resolve,
}
use travel_llm_planner.Service.{validate_optimize_request}
use travel_llm_planner.MultiDay.Requests.{pre_request, post_request, day_request}
use travel_llm_planner.MultiDay.Sides.{
  IsDay, pre_request-accepted, post_request-accepted, day_request-accepted,
}
use travel_llm_planner.MultiDay.Days.{
  open_indices, open_days, open_day_indices, candidate_days, slots_among, those, sort_ranked,
  insert_ranked, priority_rank,
}
use travel_llm_planner.MultiDay.Partition.{
  Partition, partition_places, pack_unpinned, place_pinned, pin_first, pin, pin_on, transition_side,
  place_into_bucket, place_on, set_at, settle, admitted, classify, candidate, candidate_on, best_of,
  remaining_capacity, remaining_on, admits, rejection_reason, empty_day, configs,
}
use travel_llm_planner.MultiDay.Partition.Packing.{Taken, LeftOut, pack_unpinned_cases}
use travel_llm_planner.MultiDay.Partition.Accounted.{held, wanted_ids}
use travel_llm_planner.MultiDay.Partition.Whole.{partition_places-SameItems}
use travel_llm_planner.MultiDay.Partition.Budgets.{AllGrown}
use travel_llm_planner.MultiDay.Partition.Within.{after_pinned, partition_places-AllGrown}
use travel_llm_planner.MultiDay.Partition.Homes.{AllHomes, partition_places-AllHomes}
use travel_llm_planner.MultiDay.Trip.{optimize_trip}
use travel_llm_planner.MultiDay.Planned.{Comes}
use travel_llm_planner.MultiDay.Planned.Trips.{IsTripAnswer, optimize_trip-Answers}

abbrev at_hour : ℕ → Time
at_hour hour = record { hour = hour; minute = 0; second = 0; microsecond = 0 }

abbrev stay : String → ℕ → ℕ → ℕ → Option Time → Option Time → AccommodationStay
stay name lat check_in check_out check_in_from check_out_by = record {
  name = name;
  lat = lat;
  lng = 200_000_000;
  check_in_date = check_in;
  check_out_date = check_out;
  check_in_from = check_in_from;
  check_out_by = check_out_by;
}

abbrev hotel : AccommodationStay
hotel = stay "Hotel" 140_000_000 738_000 738_001 none (some (at_hour 10))

abbrev hostel : AccommodationStay
hostel = stay "Hostel" 141_000_000 738_001 738_003 (some (at_hour 14)) none

abbrev day_on : ℕ → DayConfig
day_on date = record {
  date = date;
  day_start_hour = 9;
  day_end_hour = 20;
  day_start_time = none;
  day_end_time = none;
  start_lat = none;
  start_lng = none;
  end_lat = none;
  end_lng = none;
}

abbrev train : TransferBlock
train = record {
  date = 738_001;
  departure_time = at_hour 11;
  arrival_time = at_hour 13;
  label = some "Train";
}

abbrev on_days : List ℕ → List DaySlot
on_days [] = []
on_days (i ∷ is) =
    record { day_index = i; preferred_hour_from = none; preferred_hour_to = none } ∷ on_days is

abbrev wish : String → List ℕ → PlaceDayPreference
wish id is = record { place_id = id; day_preferences = on_days is }

abbrev wishes : List PlaceDayPreference
wishes =
    wish "museum" (0 ∷ [])
    ∷ wish "secret" (1 ∷ [])
    ∷ wish "castle" (1 ∷ [])
    ∷ wish "cafe" []
    ∷ wish "harbour" (1 ∷ 2 ∷ [])
    ∷ []

abbrev place : String → Option ℕ → PlaceDoc
place id lat = record {
  id = id;
  name = some id;
  lat = lat;
  lng = some 200_000_000;
  priority = none;
  visit_duration_min = some 60;
  hours = record { preferred_hour_from = none; preferred_hour_to = none; periods = [] };
}

abbrev known_places : List PlaceDoc
known_places =
    place "museum" (some 140_000_000)
    ∷ place "secret" none
    ∷ place "castle" (some 140_100_000)
    ∷ place "cafe" (some 140_000_000)
    ∷ place "harbour" (some 141_000_000)
    ∷ []

abbrev index : Dict PlaceDoc
index = map (λ (d : PlaceDoc). (d.id, d)) known_places

abbrev trip : MultiDayRequest
trip = record {
  days = day_on 738_000 ∷ day_on 738_001 ∷ day_on 738_002 ∷ [];
  places = wishes;
  transport_mode = walk;
  start_lat = none;
  start_lng = none;
  end_lat = none;
  end_lng = none;
  accommodations = hotel ∷ hostel ∷ [];
  transfers = train ∷ [];
}

trip_valid : validate_request trip ≡ true
unfolding validate_request validate_fields validate_model validate_day validate_transfer
    validate_day_indices validate_transfers_on_transition_days validate_transfer_day_config_conflict
    are_unique are_unique_ids is_among is_among_ids validate_day_range
    validate_day_end_time_semantics validate_stay covers_a_night insert_stay sort_stays
    adjacent_apart validate_no_stay_overlaps find_stay resolve_day is_transition_day
    resolve_day_bound_s
trip_valid = refl

abbrev in_order : List String → List String
in_order s = s

abbrev flat : ℕ → ℕ → ℕ → ℕ → ℕ
flat lat lng lat' lng' = (lat - lat') + (lat' - lat) + (lng - lng') + (lng' - lng)

abbrev no_matrix :
    ℕ → List Coord → TransportMode → Option ℕ → Option Coord → Option Coord → MatrixAnswer
no_matrix n coords mode moment start_anchor end_anchor = record {
  matrix = some (record { entries = []; transport_mode = mode; computed_at = 0 });
  status = none;
  error = none;
}

no_anchor_named :
    (occurrences "__start__" (place_ids trip) ≡ 0) × (occurrences "__end__" (place_ids trip) ≡ 0)
unfolding occurrences
no_anchor_named = (refl, refl)

optimize_trip-Answers_example :
    Comes in_order
      (λ s. Perm.rfl)
      (λ ids. known_places)
      no_matrix
      (λ n. 0)
      (IsTripAnswer trip)
      (optimize_trip in_order (λ ids. known_places) no_matrix (λ n. 0) flat trip)
optimize_trip-Answers_example =
    optimize_trip-Answers in_order (λ s. Perm.rfl) (λ ids. known_places) no_matrix (λ n. 0) flat
      trip trip_valid ((tt, tt), ((tt, tt), ((tt, tt), tt))) no_anchor_named.0 no_anchor_named.1

train_valid : validate_transfer train ≡ true
unfolding validate_transfer
train_valid = refl

-- Half a second of travel is enough.
short_hop_valid :
    validate_transfer (record train {
      departure_time = at_hour 10;
      arrival_time = record (at_hour 10) { microsecond = 500_000 };
    })
    ≡ true
unfolding validate_transfer
short_hop_valid = refl

abbrev moving : TransitionDayContext
moving = transition_day_context train hotel hostel (day_on 738_001)

transition_day_context-IsWithin_example : IsWithin (day_on 738_001) moving
transition_day_context-IsWithin_example =
    transition_day_context-IsWithin train hotel hostel (day_on 738_001) (omega arith) train_valid

resolve_segment_end_bound_fields-resolve_example :
    resolve_day_bound_s
      (resolve_segment_end_bound_fields 39600).0
      (resolve_segment_end_bound_fields 39600).1
    ≡ 39600
resolve_segment_end_bound_fields-resolve_example =
    resolve_segment_end_bound_fields-resolve 39600 (omega arith)

moving-IsDay : IsDay (day_on 738_001)
unfolding validate_day validate_day_range validate_day_end_time_semantics resolve_day_bound_s
moving-IsDay = record { valid = refl; starts = tt; ends = tt }

budgets : (1 ≤ moving.pre_visit_budget_min) × (1 ≤ moving.post_visit_budget_min)
unfolding transition_day_context bound_or resolve_day_bound_s
budgets = (omega arith, omega arith)

pre_request-accepted_example :
    validate_optimize_request (pre_request trip (day_on 738_001) moving ("castle" ∷ [])) ≡ true
pre_request-accepted_example =
    pre_request-accepted trip (day_on 738_001) moving-IsDay moving
      (transition_day_context-IsInside train hotel hostel (day_on 738_001)) ("castle" ∷ [])
      (omega arith) (omega arith) budgets.0

post_request-accepted_example :
    validate_optimize_request (post_request trip (day_on 738_001) moving ("harbour" ∷ [])) ≡ true
post_request-accepted_example =
    post_request-accepted trip (day_on 738_001) moving-IsDay moving
      (transition_day_context-IsInside train hotel hostel (day_on 738_001)) ("harbour" ∷ [])
      (omega arith) (omega arith) budgets.1

day_request-accepted_example :
    validate_optimize_request
      (day_request trip (day_on 738_001) (resolve_day trip.accommodations 738_001) ("museum" ∷ []))
    ≡ true
day_request-accepted_example =
    day_request-accepted trip (day_on 738_001) moving-IsDay
      (resolve_day trip.accommodations 738_001) ("museum" ∷ []) (omega arith) (omega arith) refl
      refl

abbrev days : List (DayConfig × Option TransitionDayContext)
days = (day_on 738_000, none) ∷ (day_on 738_001, some moving) ∷ (day_on 738_002, none) ∷ []

indices_valid : validate_day_indices 3 wishes ≡ true
unfolding validate_day_indices
indices_valid = refl

partition_places-SameItems_example :
    (st : Partition) × (partition_places flat wishes days index ≡ ok st)
    × (length st.days ≡ 3)
    × SameItems (held st) (wanted_ids wishes)
partition_places-SameItems_example =
    partition_places-SameItems flat index days wishes (omega arith) indices_valid

abbrev value_or : {A : Type 0} → A → Raising Failure A → A
value_or default (raise e) = default
value_or default (ok a) = a

abbrev unplaced : Partition
unplaced = record { days = map empty_day days; unassigned = [] }

abbrev shared : Partition
shared = value_or unplaced (partition_places flat wishes days index)

shared_lem : partition_places flat wishes days index ≡ ok shared
unfolding partition_places pack_unpinned place_pinned pin_first pin pin_on transition_side
    place_into_bucket place_on set_at settle admitted classify candidate candidate_on best_of
    remaining_capacity remaining_on admits rejection_reason visit_min priority_of google_weekday
    open_indices open_days open_day_indices candidate_days slots_among those sort_ranked
    insert_ranked priority_rank for_each transition_day_context bound_or resolve_day_bound_s lookup
    is_among
shared_lem = refl

partition_places-AllGrown_example :
    (pinned : Partition) × (after_pinned flat index days wishes ≡ ok pinned)
    × AllGrown index pinned.days shared.days
partition_places-AllGrown_example =
    partition_places-AllGrown flat index days wishes shared shared_lem

partition_places-AllHomes_example : AllHomes days shared.days
partition_places-AllHomes_example =
    partition_places-AllHomes flat index days wishes shared shared_lem

abbrev with_harbour : Partition
with_harbour =
    value_or unplaced
      (pack_unpinned flat index (configs days) unplaced (wish "harbour" (1 ∷ 2 ∷ [])))

harbour_packed :
    pack_unpinned flat index (configs days) unplaced (wish "harbour" (1 ∷ 2 ∷ [])) ≡ ok with_harbour
unfolding partition_places pack_unpinned place_pinned pin_first pin pin_on transition_side
    place_into_bucket place_on set_at settle admitted classify candidate candidate_on best_of
    remaining_capacity remaining_on admits rejection_reason visit_min priority_of google_weekday
    open_indices open_days open_day_indices candidate_days slots_among those sort_ranked
    insert_ranked priority_rank for_each transition_day_context bound_or resolve_day_bound_s lookup
    is_among
harbour_packed = refl

pack_unpinned_cases_example :
    Taken flat index (configs days) unplaced (wish "harbour" (1 ∷ 2 ∷ [])) with_harbour
    ⊎ LeftOut flat index (configs days) unplaced (wish "harbour" (1 ∷ 2 ∷ [])) with_harbour
pack_unpinned_cases_example =
    pack_unpinned_cases flat index (configs days) unplaced (wish "harbour" (1 ∷ 2 ∷ []))
      with_harbour harbour_packed
