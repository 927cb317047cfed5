-- ===== src/MultiDay.antt =====
-- src/optimizer/solver/multi_day_service.py: a trip's places are shared out among its days, and
-- each day's route is solved on its own. This file: the wiring of a transition day, a day on which
-- the travellers move from one stay to the next.

pub mod Days
pub mod Partition
pub mod Windows
pub mod Requests
pub mod Plans
pub mod Trip
pub mod Sides
pub mod Planned
mod Tests
use travel_llm_planner.Common.{
  ℕ, ◌-◌, ◌*◌, ◌/◌, min, max, leb, ◌==◌, if◌then◌else◌, String, Option, none, some, List, [], ◌∷◌,
  map,
}
use travel_llm_planner.Common.Raising.{Raising, raise, ok}
use travel_llm_planner.Clock.{Time, resolve_day_bound_s, seconds_to_time}
use travel_llm_planner.Accommodations.{AccommodationStay, DayAccommodationAnchors}
use travel_llm_planner.Service.{Failure}
use travel_llm_planner.Planner.{TransferBlock, DayConfig}

pub record TransitionDayContext : Type 0 where
  pub transfer : TransferBlock
  pub origin : AccommodationStay
  pub destination : AccommodationStay
  pub pre_start_s : ℕ
  pub pre_end_s : ℕ
  pub post_start_s : ℕ
  pub post_end_s : ℕ
  pub pre_visit_budget_min : ℕ
  pub post_visit_budget_min : ℕ

pub record TransferEndpoint : Type 0 where
  pub name : String
  pub lat : ℕ
  pub lng : ℕ

-- `duration_s` is a difference that the validator of `TransferBlock` keeps positive.
pub record TransferSegment : Type 0 where
  pub origin : TransferEndpoint
  pub destination : TransferEndpoint
  pub departure_time : Time
  pub arrival_time : Time
  pub duration_s : ℕ
  pub label : Option String

-- `by_date.get(day)`, where a later transfer of the same date replaces an earlier one.
unfoldable pub transfer_on : List TransferBlock → ℕ → Option TransferBlock → Option TransferBlock
transfer_on [] day found = found
transfer_on (t ∷ ts) day found = transfer_on ts day (if t.date == day then some t else found)

-- `resolve_day_transfer` of src/transfers/resolver.py
unfoldable pub resolve_day_transfer : List ℕ → List TransferBlock → List (Option TransferBlock)
unfolding transfer_on
resolve_day_transfer dates transfers = map (λ day. transfer_on transfers day none) dates

-- `_resolve_segment_end_bound_fields`
unfoldable pub resolve_segment_end_bound_fields : ℕ → ℕ × Option Time
resolve_segment_end_bound_fields end_s =
    if leb (24 * 3600) end_s then (24, none) else (23, some (seconds_to_time end_s))

-- `resolve_day_bound_s(0, t) if t else default`. A time is never falsy.
unfoldable pub bound_or : Option Time → ℕ → ℕ
bound_or none default_s = default_s
bound_or (some t) default_s = resolve_day_bound_s 0 (some t)

-- The windows and budgets, once both stays are known.
unfoldable pub transition_day_context :
    TransferBlock → AccommodationStay → AccommodationStay → DayConfig → TransitionDayContext
unfolding bound_or
transition_day_context transfer origin destination cfg =
    let configured_start_s = resolve_day_bound_s cfg.day_start_hour cfg.day_start_time in
    let configured_end_s = resolve_day_bound_s cfg.day_end_hour cfg.day_end_time in
    let departure_s = resolve_day_bound_s 0 (some transfer.departure_time) in
    let arrival_s = resolve_day_bound_s 0 (some transfer.arrival_time) in
    let check_in_s = bound_or destination.check_in_from configured_start_s in
    let check_out_s = bound_or origin.check_out_by departure_s in
    let pre_end_s = min (min departure_s configured_end_s) check_out_s in
    let post_start_s = max (max arrival_s check_in_s) configured_start_s in
    record {
      transfer = transfer;
      origin = origin;
      destination = destination;
      pre_start_s = configured_start_s;
      pre_end_s = pre_end_s;
      post_start_s = post_start_s;
      post_end_s = configured_end_s;
      pre_visit_budget_min = (pre_end_s - configured_start_s) / 60;
      post_visit_budget_min = (configured_end_s - post_start_s) / 60;
    }

-- `_build_transition_day_context`. A negative difference gives no budget.
unfoldable pub build_transition_day_context :
    TransferBlock → DayAccommodationAnchors → DayConfig → Raising Failure TransitionDayContext
unfolding transition_day_context
build_transition_day_context transfer anchors cfg = elim anchors.start [
  | none ↦ raise Failure.assertion_error
  | some (i, origin) ↦ elim anchors.end [
    | none ↦ raise Failure.assertion_error
    | some (j, destination) ↦ ok (transition_day_context transfer origin destination cfg)
  ]
]

abbrev endpoint : AccommodationStay → TransferEndpoint
endpoint stay = record { name = stay.name; lat = stay.lat; lng = stay.lng }

-- `_build_transfer_segment`
unfoldable pub build_transfer_segment : TransitionDayContext → TransferSegment
build_transfer_segment ctx =
    let departure_s = resolve_day_bound_s 0 (some ctx.transfer.departure_time) in
    let arrival_s = resolve_day_bound_s 0 (some ctx.transfer.arrival_time) in
    record {
      origin = endpoint ctx.origin;
      destination = endpoint ctx.destination;
      departure_time = ctx.transfer.departure_time;
      arrival_time = ctx.transfer.arrival_time;
      duration_s = arrival_s - departure_s;
      label = ctx.transfer.label;
    }
