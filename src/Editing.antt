-- ===== src/Editing.antt =====
-- src/trips/editing: the edit operations of a multi-day trip, their errors, and the result of a step
-- that may raise one.
pub mod Reconcile
pub mod InPlace
pub mod Lodging
pub mod Handlers
pub mod Apply
pub mod Outcome
pub mod Preserved
pub mod Selectors
pub mod Claims
pub mod Distinct
pub mod Resolved
pub mod Kept
mod Tests
use travel_llm_planner.Common.{ℕ, ◌≡◌, refl, String, Bool, true, false, Option, List}
pub use travel_llm_planner.Common.Raising.{Raising, ok, raise, ◌>>=◌, >>=-eq-ok, ensure, ensure-ok}
use travel_llm_planner.Clock.{Time}
use travel_llm_planner.Matrix.{TransportMode}
use travel_llm_planner.Accommodations.{AccommodationStay}

-- The subclasses of `TripEditError` that an edit raises before it is saved, without their messages.
pub data EditError : Type 0 where
  operation_validation invalid_day_index place_not_in_trip too_few_places accommodation_not_found
        accommodation_selector_conflict transfer_not_found transfer_already_exists
        trip_edit_validation :
      EditError

abbrev pub Edited : Type 0 → Type 0
Edited V = Raising EditError V

pub record DaySlotOp : Type 0 where
  pub day_index : ℕ
  pub preferred_hour_from : Option ℕ
  pub preferred_hour_to : Option ℕ

pub record UpdateDayWindowOp : Type 0 where
  pub day_index : ℕ
  pub day_start_hour : Option ℕ
  pub day_end_hour : Option ℕ
  pub day_start_time : Option Time
  pub day_end_time : Option Time
  pub clear_start_time : Bool
  pub clear_end_time : Bool

pub record AddTransferOp : Type 0 where
  pub date : ℕ
  pub departure_time : Time
  pub arrival_time : Time
  pub label : Option String

pub record UpdateTransferOp : Type 0 where
  pub date : ℕ
  pub departure_time : Option Time
  pub arrival_time : Option Time
  pub label : Option String
  pub clear_label : Bool

pub record UpdateAccommodationOp : Type 0 where
  pub stay_index : ℕ
  pub name : Option String
  pub lat : Option ℕ
  pub lng : Option ℕ
  pub check_in_date : Option ℕ
  pub check_out_date : Option ℕ
  pub check_in_from : Option Time
  pub check_out_by : Option Time
  pub clear_check_in_from : Bool
  pub clear_check_out_by : Bool

-- The fields of `AddAccommodationOp` are those of the stay.
pub data AccommodationOp : Type 0 where
  add_accommodation : AccommodationStay → AccommodationOp
  update_accommodation : UpdateAccommodationOp → AccommodationOp
  remove_accommodation : ℕ → AccommodationOp

-- `TripEditOperation`; the bounds of the fields are checked before a batch gets here.
pub data TripEditOperation : Type 0 where
  set_place_auto : String → TripEditOperation
  set_place_pinned : String → DaySlotOp → TripEditOperation
  set_place_flexible : String → List DaySlotOp → TripEditOperation
  remove_place : String → TripEditOperation
  update_day_window : UpdateDayWindowOp → TripEditOperation
  set_transport_mode : TransportMode → TripEditOperation
  add_transfer : AddTransferOp → TripEditOperation
  update_transfer : UpdateTransferOp → TripEditOperation
  remove_transfer : ℕ → TripEditOperation
  accommodation : AccommodationOp → TripEditOperation
