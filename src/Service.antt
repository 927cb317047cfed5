-- ===== src/Service.antt =====
-- src/optimizer/solver/service.py, the optimisation of one day, with its request and response of
-- src/optimizer/solver/models.py. Coordinates are as in Accommodations.antt, dates are day numbers.
pub mod Priorities
pub mod Counts
pub mod Accounts
pub mod Tiers
pub mod Weights
pub mod Guarantee
pub mod Kept
pub mod MustSee
pub mod Eligible
pub mod Route
pub mod Filtered
pub mod Scheduled
pub mod Stops
pub mod Travel
pub mod Ends
pub mod Final
pub mod Assembled
pub mod Answered
mod Tests
use travel_llm_planner.Common.{
  ℕ, ltb, leb, ◌==◌, String, Bool, true, false, not, ◌&&◌, Option, none, some, List, length,
}
use travel_llm_planner.Common.Raising.{Raising, ok, ◌>>=◌, ensure}
use travel_llm_planner.Clock.{Time, micros, resolve_day_bound_s}
use travel_llm_planner.Matrix.{TransportMode}
use travel_llm_planner.Places.{SkippedPlace}
use travel_llm_planner.Planner.{both_or_neither}

-- The exceptions that planning may end in. `MatrixUnavailableError` has a status and an error text.
pub data Failure : Type 0 where
  key_error index_error value_error assertion_error validation_error : Failure
  matrix_unavailable : String → Option String → Failure

pub record OptimizeRequest : Type 0 where
  pub place_ids : List String
  pub transport_mode : TransportMode
  pub day_start_hour : ℕ
  pub day_end_hour : ℕ
  pub day_start_time : Option Time
  pub day_end_time : Option Time
  pub start_lat : Option ℕ
  pub start_lng : Option ℕ
  pub end_lat : Option ℕ
  pub end_lng : Option ℕ
  pub departure_date : Option ℕ

pub record RouteStep : Type 0 where
  pub place_id : String
  pub name : Option String
  pub lat : Option ℕ
  pub lng : Option ℕ
  pub arrival_time : Time
  pub departure_time : Time
  pub travel_from_previous_s : ℕ
  pub visit_duration_min : ℕ
  pub wait_min : ℕ

pub record OptimizeResponse : Type 0 where
  pub steps : List RouteStep
  pub total_travel_time_s : ℕ
  pub total_visit_time_min : ℕ
  pub total_wait_min : ℕ
  pub transport_mode : TransportMode
  pub skipped : List SkippedPlace
  pub travel_to_end_s : ℕ

-- `validate_day_end_time_semantics`
unfoldable pub end_time_is_sound : ℕ → Option Time → Bool
end_time_is_sound day_end_hour none = true
end_time_is_sound day_end_hour (some t) = not (micros t == 0) && not (day_end_hour == 24)

-- The fields' own bounds, then the validators in their order: false where one raises.
unfoldable pub validate_optimize_request : OptimizeRequest → Bool
unfolding end_time_is_sound
validate_optimize_request r =
    leb 1 (length r.place_ids)
    && leb (length r.place_ids) 50
    && leb r.day_start_hour 23
    && leb 1 r.day_end_hour
    && leb r.day_end_hour 24
    && end_time_is_sound r.day_end_hour r.day_end_time
    && ltb (resolve_day_bound_s r.day_start_hour r.day_start_time)
        (resolve_day_bound_s r.day_end_hour r.day_end_time)
    && both_or_neither r.start_lat r.start_lng
    && both_or_neither r.end_lat r.end_lng

-- `OptimizeRequest(...)`
unfoldable pub optimize_request : OptimizeRequest → Raising Failure OptimizeRequest
unfolding validate_optimize_request
optimize_request r = ensure (validate_optimize_request r) Failure.validation_error >>= λ _. ok r
