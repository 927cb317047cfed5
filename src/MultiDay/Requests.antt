-- ===== src/MultiDay/Requests.antt =====
-- The requests that `optimize_trip` of src/optimizer/solver/multi_day_service.py makes of its days,
-- and the documents that it gives with them.
use travel_llm_planner.Common.{
  ℕ, ◌==◌, same, if◌then◌else◌, String, Option, none, some, List, [], ◌∷◌, Dict, lookup,
}
use travel_llm_planner.Clock.{seconds_to_time}
use travel_llm_planner.Places.{PlaceDoc}
use travel_llm_planner.Accommodations.{
  AccommodationStay, DayAccommodationAnchors, is_transition_day,
}
use travel_llm_planner.Planner.{DaySlot, PlaceDayPreference, DayConfig, MultiDayRequest}
use travel_llm_planner.Service.{OptimizeRequest}
use travel_llm_planner.MultiDay.{TransitionDayContext, resolve_segment_end_bound_fields}

-- `slot_map.get((pid, day_idx))`: a later slot of the same place and day replaces an earlier one.
unfoldable pub slot_in : ℕ → List DaySlot → Option DaySlot → Option DaySlot
slot_in day_idx [] found = found
slot_in day_idx (s ∷ ss) found =
    slot_in day_idx ss (if s.day_index == day_idx then some s else found)

unfoldable pub slot_of : String → ℕ → List PlaceDayPreference → Option DaySlot → Option DaySlot
unfolding slot_in
slot_of pid day_idx [] found = found
slot_of pid day_idx (p ∷ ps) found =
    slot_of pid day_idx ps
      (if same p.place_id pid then slot_in day_idx p.day_preferences found else found)

-- `if x is not None: doc[key] = x`
abbrev pub override : Option ℕ → Option ℕ → Option ℕ
override none old = old
override (some new) old = some new

unfoldable pub with_slot : Option DaySlot → PlaceDoc → PlaceDoc
with_slot none doc = doc
with_slot (some slot) doc = record doc {
  hours = record doc.hours {
    preferred_hour_from = override slot.preferred_hour_from doc.hours.preferred_hour_from;
    preferred_hour_to = override slot.preferred_hour_to doc.hours.preferred_hour_to;
  };
}

-- `_build_day_docs`
unfoldable pub build_day_docs :
    List String → Dict PlaceDoc → List PlaceDayPreference → ℕ → List PlaceDoc
unfolding slot_of with_slot
build_day_docs [] docs places day_idx = []
build_day_docs (pid ∷ pids) docs places day_idx =
    let rest = build_day_docs pids docs places day_idx in
    elim (lookup pid docs) [
      | none ↦ rest
      | some doc ↦ with_slot (slot_of pid day_idx places none) doc ∷ rest
    ]

unfoldable pub pre_request :
    MultiDayRequest → DayConfig → TransitionDayContext → List String → OptimizeRequest
unfolding resolve_segment_end_bound_fields
pre_request request cfg ctx pids =
    let fields = resolve_segment_end_bound_fields ctx.pre_end_s in
    record {
      place_ids = pids;
      transport_mode = request.transport_mode;
      day_start_hour = cfg.day_start_hour;
      day_end_hour = fields.0;
      day_start_time = cfg.day_start_time;
      day_end_time = fields.1;
      start_lat = some ctx.origin.lat;
      start_lng = some ctx.origin.lng;
      end_lat = some ctx.origin.lat;
      end_lng = some ctx.origin.lng;
      departure_date = some cfg.date;
    }

unfoldable pub post_request :
    MultiDayRequest → DayConfig → TransitionDayContext → List String → OptimizeRequest
post_request request cfg ctx pids = record {
  place_ids = pids;
  transport_mode = request.transport_mode;
  day_start_hour = cfg.day_start_hour;
  day_end_hour = cfg.day_end_hour;
  day_start_time = some (seconds_to_time ctx.post_start_s);
  day_end_time = cfg.day_end_time;
  start_lat = some ctx.destination.lat;
  start_lng = some ctx.destination.lng;
  end_lat = some ctx.destination.lat;
  end_lng = some ctx.destination.lng;
  departure_date = some cfg.date;
}

-- `cfg.x if cfg.x is not None else (stay.x if stay is not None else request.x)`
abbrev pub first_given :
    Option ℕ → (AccommodationStay → ℕ) → Option (ℕ × AccommodationStay) → Option ℕ → Option ℕ
first_given (some own) field stay default = some own
first_given none field (some (i, stay)) default = some (field stay)
first_given none field none default = default

-- The stays that anchor an ordinary day; none of them does on a change of stays.
abbrev pub anchoring :
    DayAccommodationAnchors → Option (ℕ × AccommodationStay) → Option (ℕ × AccommodationStay)
anchoring anchors stay = if is_transition_day anchors then none else stay

unfoldable pub day_request :
    MultiDayRequest → DayConfig → DayAccommodationAnchors → List String → OptimizeRequest
day_request request cfg anchors pids =
    let start = anchoring anchors anchors.start in
    let end = anchoring anchors anchors.end in
    record {
      place_ids = pids;
      transport_mode = request.transport_mode;
      day_start_hour = cfg.day_start_hour;
      day_end_hour = cfg.day_end_hour;
      day_start_time = cfg.day_start_time;
      day_end_time = cfg.day_end_time;
      start_lat =
          first_given cfg.start_lat (λ (s : AccommodationStay). s.lat) start request.start_lat;
      start_lng =
          first_given cfg.start_lng (λ (s : AccommodationStay). s.lng) start request.start_lng;
      end_lat = first_given cfg.end_lat (λ (s : AccommodationStay). s.lat) end request.end_lat;
      end_lng = first_given cfg.end_lng (λ (s : AccommodationStay). s.lng) end request.end_lng;
      departure_date = some cfg.date;
    }
