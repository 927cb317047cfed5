-- ===== src/Editing/Tests.antt =====
-- A batch on a trip of three days with three stays: the last stay is removed, so the transfer to it is
-- dropped, and the one between the other two is kept.
use travel_llm_planner.Common.{
  arith, ℕ, ◌≡◌, refl, String, true, not, none, some, List, [], ◌∷◌, All,
}
use travel_llm_planner.Clock.{Time, resolve_day_bound_s}
use travel_llm_planner.Matrix.{TransportMode}
use travel_llm_planner.Accommodations.{
  AccommodationStay, covers_a_night, validate_stay, insert_stay, sort_stays, adjacent_apart,
  validate_no_stay_overlaps, find_stay, resolve_day, is_transition_day,
}
use travel_llm_planner.Planner
use travel_llm_planner.Planner.{
  DaySlot, PlaceDayPreference, DayConfig, TransferBlock, MultiDayRequest, day_dates, place_ids,
  transfer_dates, validate_request,
}
use travel_llm_planner.Editing.{
  ok, remove_accommodation, DaySlotOp, TripEditOperation, set_place_pinned, remove_place,
  accommodation,
}
use travel_llm_planner.Editing.Reconcile
use travel_llm_planner.Editing.Reconcile.{ResolvedOp, removes, resolve_accommodation_selectors}
use travel_llm_planner.Editing.InPlace.{keep_if, update_at}
use travel_llm_planner.Editing.Lodging
use travel_llm_planner.Editing.Handlers
use travel_llm_planner.Editing.Apply.{ApplyOutcome, accommodation_ops, finish, apply_operations}
use travel_llm_planner.Editing.Preserved.{is_removed_by, apply_operations-Preserves}
use travel_llm_planner.Editing.Kept.{
  IsEdited, Parts, IsChangeoverDay, WasOrphan, apply_operations-TransfersFit,
}
use travel_llm_planner.Editing.Resolved.{resolve_accommodation_selectors_total}
use travel_llm_planner.Editing.Claims.{
  targets, selectors, AllPick, AllDistinct, resolve_accommodation_selectors-AllPick,
}

abbrev at_hour : ℕ → Time
at_hour h = record { hour = h; minute = 0; second = 0; microsecond = 0 }

abbrev stay_at : String → ℕ → ℕ → AccommodationStay
stay_at name check_in check_out = record {
  name = name;
  lat = 140_000_000;
  lng = 200_000_000;
  check_in_date = check_in;
  check_out_date = check_out;
  check_in_from = none;
  check_out_by = none;
}

abbrev day_on : ℕ → DayConfig
day_on date = record {
  date = date;
  day_start_hour = 9;
  day_end_hour = 21;
  day_start_time = none;
  day_end_time = none;
  start_lat = none;
  start_lng = none;
  end_lat = none;
  end_lng = none;
}

abbrev place_with : String → List DaySlot → PlaceDayPreference
place_with id slots = record { place_id = id; day_preferences = slots }

abbrev journey : ℕ → TransferBlock
journey date = record {
  date = date;
  departure_time = at_hour 11;
  arrival_time = at_hour 14;
  label = none;
}

abbrev trip : MultiDayRequest
trip = record {
  days = day_on 12 ∷ day_on 13 ∷ day_on 14 ∷ [];
  places = place_with "museum" [] ∷ place_with "castle" [] ∷ place_with "park" [] ∷ [];
  transport_mode = TransportMode.walk;
  start_lat = none;
  start_lng = none;
  end_lat = none;
  end_lng = none;
  accommodations = stay_at "Inn" 14 16 ∷ stay_at "Hotel" 10 13 ∷ stay_at "Hostel" 13 14 ∷ [];
  transfers = journey 13 ∷ journey 14 ∷ [];
}

abbrev slot_on : ℕ → DaySlotOp
slot_on day_index = record {
  day_index = day_index;
  preferred_hour_from = some 10;
  preferred_hour_to = none;
}

abbrev batch : List TripEditOperation
batch =
    set_place_pinned "castle" (slot_on 1)
    ∷ accommodation (remove_accommodation 2)
    ∷ remove_place "museum"
    ∷ []

abbrev edited_trip : ApplyOutcome
edited_trip = record {
  request = record trip {
    places =
        place_with "castle"
          (record { day_index = 1; preferred_hour_from = some 10; preferred_hour_to = none } ∷ [])
        ∷ place_with "park" []
        ∷ [];
    accommodations = stay_at "Hotel" 10 13 ∷ stay_at "Hostel" 13 14 ∷ [];
    transfers = journey 13 ∷ [];
  };
  removed_transfer_dates = 14 ∷ [];
}

abbrev stays_before : List AccommodationStay
stays_before = trip.accommodations

-- The last stay, though it is listed first, is the one at selector 2.
batch_resolves :
    resolve_accommodation_selectors stays_before (accommodation_ops batch) ≡ ok (removes 0 ∷ [])
unfolding resolve_accommodation_selectors accommodation_ops Reconcile.resolve_from
    Reconcile.resolve_selector Reconcile.sorted_positions Reconcile.sort_placed
    Reconcile.insert_placed Planner.is_among
batch_resolves = refl

batch_applies : apply_operations trip batch ≡ ok edited_trip
unfolding apply_operations resolve_accommodation_selectors accommodation_ops Reconcile.resolve_from
    Reconcile.resolve_selector Reconcile.sorted_positions Reconcile.sort_placed
    Reconcile.insert_placed Planner.is_among Lodging.apply_accommodation_ops Lodging.apply_updates
    Lodging.removed_indices Lodging.without_indices Lodging.added_stays update_at keep_if finish
    Handlers.handle_all Handlers.handle Handlers.handle_set_place_pinned
    Handlers.handle_remove_place Handlers.set_preferences Handlers.pinned_hours
    Handlers.hours_of_only Reconcile.assert_place_in_trip Reconcile.assert_day_index_in_range
    Reconcile.ensure_min_places Reconcile.merge_preserved_hours Reconcile.find_slot
    Reconcile.reconcile_transfers_after_transition_change Reconcile.is_kept
    Reconcile.partition_transfers validate_stay covers_a_night resolve_day find_stay
    is_transition_day validate_request Planner.validate_fields Planner.validate_model
    Planner.validate_day Planner.validate_day_end_time_semantics Planner.validate_day_range
    Planner.validate_transfer Planner.validate_day_indices
    Planner.validate_transfers_on_transition_days Planner.validate_transfer_day_config_conflict
    Planner.are_unique Planner.are_unique_ids Planner.is_among_ids validate_no_stay_overlaps
    sort_stays insert_stay adjacent_apart resolve_day_bound_s
batch_applies = refl

apply_operations-Preserves_example :
    (place_ids edited_trip.request
      ≡ keep_if (λ (id : String). not (is_removed_by batch id)) (place_ids trip))
    × (day_dates edited_trip.request ≡ day_dates trip)
    × (validate_request edited_trip.request ≡ true)
apply_operations-Preserves_example = apply_operations-Preserves trip batch batch_applies

apply_operations-TransfersFit_example :
    All
      (λ (t : TransferBlock). IsChangeoverDay edited_trip.request t.date)
      edited_trip.request.transfers
    × All (WasOrphan (transfer_dates trip) edited_trip.request) edited_trip.removed_transfer_dates
    × (edited : MultiDayRequest) × IsEdited trip batch edited
    × Parts edited.transfers edited_trip.request.transfers edited_trip.removed_transfer_dates
apply_operations-TransfersFit_example = apply_operations-TransfersFit trip batch batch_applies

resolve_accommodation_selectors-AllPick_example :
    AllPick stays_before (selectors (accommodation_ops batch)) (targets (removes 0 ∷ []))
    × AllDistinct (targets (removes 0 ∷ []))
resolve_accommodation_selectors-AllPick_example =
    resolve_accommodation_selectors-AllPick stays_before (accommodation_ops batch) batch_resolves

resolve_accommodation_selectors_total_example :
    (resolved : List ResolvedOp) × (resolve_accommodation_selectors stays_before
        (remove_accommodation 1 ∷ remove_accommodation 0 ∷ [])
      ≡ ok resolved)
resolve_accommodation_selectors_total_example =
    resolve_accommodation_selectors_total stays_before
      (remove_accommodation 1 ∷ remove_accommodation 0 ∷ []) (omega arith) (omega arith)
