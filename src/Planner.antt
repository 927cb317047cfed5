-- ===== src/Planner.antt =====
-- The multi-day request of src/optimizer/solver/models.py and the transfer block of
-- src/transfers/models.py, with their validators as Boolean tests: false where one raises.
-- Dates are day numbers, hours and day indices natural numbers. Coordinates are as in
-- Accommodations.antt.
use Prim.Native.String.{count}
use travel_llm_planner.Common.{
  ℕ, ltb, leb, ◌==◌, same, String, Bool, true, false, not, ◌&&◌, ◌||◌, Option, none, some, List, [],
  ◌∷◌, map, length,
}
use travel_llm_planner.Clock.{Time, micros, resolve_day_bound_s}
use travel_llm_planner.Matrix.{TransportMode}
use travel_llm_planner.Accommodations.{
  AccommodationStay, validate_stay, validate_no_stay_overlaps, resolve_day, is_transition_day,
}

-- `all(test(x) for x in xs)`
abbrev pub every {ℓ} : {A : Type ℓ} → (A → Bool) → List A → Bool
every test [] = true
every test (x ∷ xs) = test x && every test xs

abbrev pub is_given {ℓ} : {A : Type ℓ} → Option A → Bool
is_given none = false
is_given (some a) = true

-- `(lat is None) == (lng is None)`
abbrev pub both_or_neither : Option ℕ → Option ℕ → Bool
both_or_neither (some lat) lng = is_given lng
both_or_neither none lng = not (is_given lng)

-- Whether a day's number is among the dates, `day in dates`.
unfoldable pub is_among : ℕ → List ℕ → Bool
is_among day [] = false
is_among day (d ∷ ds) = day == d || is_among day ds

-- `len(dates) == len(set(dates))`
unfoldable pub are_unique : List ℕ → Bool
unfolding is_among
are_unique [] = true
are_unique (d ∷ ds) = not (is_among d ds) && are_unique ds

unfoldable pub is_among_ids : String → List String → Bool
is_among_ids id [] = false
is_among_ids id (i ∷ is) = same id i || is_among_ids id is

unfoldable pub are_unique_ids : List String → Bool
unfolding is_among_ids
are_unique_ids [] = true
are_unique_ids (i ∷ is) = not (is_among_ids i is) && are_unique_ids is

pub record TransferBlock : Type 0 where
  pub date : ℕ
  pub departure_time : Time
  pub arrival_time : Time
  pub label : Option String

abbrev pub is_label : Option String → Bool
is_label none = true
is_label (some text) = leb (count text) 200

-- The length of the label, and `validate_same_day_arrival_after_departure`.
unfoldable pub validate_transfer : TransferBlock → Bool
validate_transfer t = is_label t.label && ltb (micros t.departure_time) (micros t.arrival_time)

pub record DaySlot : Type 0 where
  pub day_index : ℕ
  pub preferred_hour_from : Option ℕ
  pub preferred_hour_to : Option ℕ

pub record PlaceDayPreference : Type 0 where
  pub place_id : String
  pub day_preferences : List DaySlot

pub record DayConfig : Type 0 where
  pub date : ℕ
  pub day_start_hour : ℕ
  pub day_end_hour : ℕ
  pub day_start_time : Option Time
  pub day_end_time : Option Time
  pub start_lat : Option ℕ
  pub start_lng : Option ℕ
  pub end_lat : Option ℕ
  pub end_lng : Option ℕ

-- `validate_day_end_time_semantics`
unfoldable pub validate_day_end_time_semantics : ℕ → Option Time → Bool
validate_day_end_time_semantics day_end_hour none = true
validate_day_end_time_semantics day_end_hour (some t) =
    not (micros t == 0) && not (day_end_hour == 24)

-- `validate_day_range`
unfoldable pub validate_day_range : DayConfig → Bool
validate_day_range day =
    ltb (resolve_day_bound_s day.day_start_hour day.day_start_time)
      (resolve_day_bound_s day.day_end_hour day.day_end_time)

-- The fields' own bounds, then the validators in their order.
unfoldable pub validate_day : DayConfig → Bool
unfolding validate_day_end_time_semantics validate_day_range
validate_day day =
    leb day.day_start_hour 23
    && leb 1 day.day_end_hour
    && leb day.day_end_hour 24
    && validate_day_end_time_semantics day.day_end_hour day.day_end_time
    && validate_day_range day
    && both_or_neither day.start_lat day.start_lng
    && both_or_neither day.end_lat day.end_lng

pub record MultiDayRequest : Type 0 where
  pub days : List DayConfig
  pub places : List PlaceDayPreference
  pub transport_mode : TransportMode
  pub start_lat : Option ℕ
  pub start_lng : Option ℕ
  pub end_lat : Option ℕ
  pub end_lng : Option ℕ
  pub accommodations : List AccommodationStay
  pub transfers : List TransferBlock

abbrev pub is_transit : TransportMode → Bool
is_transit TransportMode.transit = true
is_transit mode = false

abbrev pub day_dates : MultiDayRequest → List ℕ
day_dates r = map (λ (d : DayConfig). d.date) r.days

abbrev pub place_ids : MultiDayRequest → List String
place_ids r = map (λ (p : PlaceDayPreference). p.place_id) r.places

abbrev pub transfer_dates : MultiDayRequest → List ℕ
transfer_dates r = map (λ (t : TransferBlock). t.date) r.transfers

-- `validate_day_indices`
unfoldable pub validate_day_indices : ℕ → List PlaceDayPreference → Bool
validate_day_indices num_days = every (λ (p : PlaceDayPreference).
    every (λ (slot : DaySlot). ltb slot.day_index num_days) p.day_preferences)

-- `validate_transfers_on_transition_days`. The anchors of a date are the same whichever entry of the
-- dates' dictionary they are read from.
unfoldable pub validate_transfers_on_transition_days :
    List ℕ → List AccommodationStay → List TransferBlock → Bool
validate_transfers_on_transition_days dates stays transfers =
    every (λ (t : TransferBlock). is_among t.date dates) transfers
    && every (λ (t : TransferBlock). is_transition_day (resolve_day stays t.date)) transfers

-- `validate_transfer_day_config_conflict`
unfoldable pub validate_transfer_day_config_conflict : List ℕ → List DayConfig → Bool
validate_transfer_day_config_conflict dates =
    every (λ (d : DayConfig).
      not (is_among d.date dates && (is_given d.start_lat || is_given d.end_lat)))

-- The validation of the nested models and of the lists' lengths.
unfoldable pub validate_fields : MultiDayRequest → Bool
unfolding validate_day validate_transfer
validate_fields r =
    leb 1 (length r.days)
    && leb (length r.days) 31
    && leb 2 (length r.places)
    && leb (length r.places) 50
    && every validate_day r.days
    && every validate_stay r.accommodations
    && every validate_transfer r.transfers

-- The model's validators, in their order.
unfoldable pub validate_model : MultiDayRequest → Bool
unfolding validate_day_indices validate_transfers_on_transition_days
    validate_transfer_day_config_conflict are_unique are_unique_ids
validate_model r =
    not (is_transit r.transport_mode)
    && validate_day_indices (length r.days) r.places
    && are_unique_ids (place_ids r)
    && both_or_neither r.start_lat r.start_lng
    && both_or_neither r.end_lat r.end_lng
    && validate_no_stay_overlaps r.accommodations
    && are_unique (day_dates r)
    && are_unique (transfer_dates r)
    && validate_transfers_on_transition_days (day_dates r) r.accommodations r.transfers
    && validate_transfer_day_config_conflict (transfer_dates r) r.days

-- `MultiDayRequest.model_validate`
unfoldable pub validate_request : MultiDayRequest → Bool
unfolding validate_fields validate_model
validate_request r = validate_fields r && validate_model r
