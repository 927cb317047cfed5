-- ===== src/Editing/Handlers.antt =====
-- The handlers of src/trips/editing/apply.py for everything but the lodgings.
use travel_llm_planner.Common.{
  ℕ, ◌-◌, ◌==◌, same, if◌then◌else◌, String, not, Option, none, List, [], ◌∷◌, ◌++◌, length,
}
use travel_llm_planner.Matrix.{TransportMode}
use travel_llm_planner.Planner.{
  is_among, DaySlot, PlaceDayPreference, DayConfig, TransferBlock, MultiDayRequest, day_dates,
  transfer_dates,
}
use travel_llm_planner.Editing.{
  EditError, Edited, ok, ◌>>=◌, ensure, DaySlotOp, UpdateDayWindowOp, AddTransferOp,
  UpdateTransferOp, TripEditOperation, set_place_auto, set_place_pinned, set_place_flexible,
  remove_place, update_day_window, set_transport_mode, add_transfer, update_transfer,
  remove_transfer, accommodation,
}
use travel_llm_planner.Editing.Reconcile.{
  assert_place_in_trip, assert_day_index_in_range, ensure_min_places, merge_preserved_hours,
  requested_or, dedupe_flexible_slots,
}
use travel_llm_planner.Editing.InPlace.{keep_if, update_at, given, cleared}

-- Writing through the entry that `assert_place_in_trip` returns: the first with the identifier.
unfoldable pub set_preferences :
    String → List DaySlot → List PlaceDayPreference → List PlaceDayPreference
set_preferences place_id slots [] = []
set_preferences place_id slots (place ∷ places) =
    if same place.place_id place_id
    then record { place_id = place.place_id; day_preferences = slots } ∷ places
    else place ∷ set_preferences place_id slots places

unfoldable pub handle_set_place_auto : MultiDayRequest → String → Edited MultiDayRequest
handle_set_place_auto request place_id = assert_place_in_trip request.places place_id >>= λ place.
    ok (record request { places = set_preferences place_id [] request.places })

-- Without hours of its own, a place pinned anew keeps the hours of its only slot.
unfoldable pub hours_of_only : List DaySlot → Option ℕ → Option ℕ → Option ℕ × Option ℕ
hours_of_only (only ∷ []) none none = (only.preferred_hour_from, only.preferred_hour_to)
hours_of_only existing hour_from hour_to = (hour_from, hour_to)

unfoldable pub pinned_hours : List DaySlot → DaySlotOp → Option ℕ × Option ℕ
unfolding hours_of_only
pinned_hours existing slot =
    let merged =
      merge_preserved_hours existing slot.day_index slot.preferred_hour_from
        slot.preferred_hour_to in
    hours_of_only existing merged.0 merged.1

unfoldable pub handle_set_place_pinned :
    MultiDayRequest → String → DaySlotOp → Edited MultiDayRequest
unfolding pinned_hours
handle_set_place_pinned request place_id slot =
    assert_place_in_trip request.places place_id >>= λ place.
    assert_day_index_in_range (length request.days) slot.day_index >>= λ in_range.
    let hours = pinned_hours place.day_preferences slot in
    let pinned : DaySlot = record {
      day_index = slot.day_index;
      preferred_hour_from = hours.0;
      preferred_hour_to = hours.1;
    } in
    ok (record request { places = set_preferences place_id (pinned ∷ []) request.places })

unfoldable pub new_slots : ℕ → List DaySlot → List DaySlotOp → Edited (List DaySlot)
new_slots num_days existing [] = ok []
new_slots num_days existing (slot ∷ slots) =
    assert_day_index_in_range num_days slot.day_index >>= λ in_range.
    new_slots num_days existing slots >>= λ rest.
    let hours =
      merge_preserved_hours existing slot.day_index slot.preferred_hour_from
        slot.preferred_hour_to in
    ok (
      record {
        day_index = slot.day_index;
        preferred_hour_from = hours.0;
        preferred_hour_to = hours.1;
      }
      ∷ rest)

unfoldable pub handle_set_place_flexible :
    MultiDayRequest → String → List DaySlotOp → Edited MultiDayRequest
unfolding new_slots
handle_set_place_flexible request place_id slots =
    assert_place_in_trip request.places place_id >>= λ place.
    dedupe_flexible_slots slots >>= λ distinct.
    new_slots (length request.days) place.day_preferences slots >>= λ preferences.
    ok (record request { places = set_preferences place_id preferences request.places })

unfoldable pub handle_remove_place : MultiDayRequest → String → Edited MultiDayRequest
unfolding keep_if
handle_remove_place request place_id = assert_place_in_trip request.places place_id >>= λ place.
    ensure_min_places (length request.places - 1) >>= λ enough. ok (record request {
      places = keep_if (λ (p : PlaceDayPreference). not (same p.place_id place_id)) request.places;
    })

-- The day's fields, each set where the operation gives a value, and cleared after that.
unfoldable pub set_window : UpdateDayWindowOp → DayConfig → DayConfig
set_window op day = record day {
  day_start_hour = given op.day_start_hour day.day_start_hour;
  day_end_hour = given op.day_end_hour day.day_end_hour;
  day_start_time = cleared op.clear_start_time (requested_or op.day_start_time day.day_start_time);
  day_end_time = cleared op.clear_end_time (requested_or op.day_end_time day.day_end_time);
}

unfoldable pub handle_update_day_window :
    MultiDayRequest → UpdateDayWindowOp → Edited MultiDayRequest
unfolding set_window update_at
handle_update_day_window request op =
    assert_day_index_in_range (length request.days) op.day_index >>= λ in_range.
    ok (record request { days = update_at op.day_index (set_window op) request.days })

unfoldable pub handle_set_transport_mode : MultiDayRequest → TransportMode → Edited MultiDayRequest
handle_set_transport_mode request mode = ok (record request { transport_mode = mode })

unfoldable pub handle_add_transfer : MultiDayRequest → AddTransferOp → Edited MultiDayRequest
handle_add_transfer request op =
    ensure (not (is_among op.date (transfer_dates request))) EditError.transfer_already_exists
    >>= λ fresh.
        ensure (is_among op.date (day_dates request)) EditError.invalid_day_index >>= λ among.
        let block : TransferBlock = record {
          date = op.date;
          departure_time = op.departure_time;
          arrival_time = op.arrival_time;
          label = op.label;
        } in
        ok (record request { transfers = request.transfers ++ (block ∷ []) })

-- `_find_transfer`, which only decides whether the handlers go on.
unfoldable pub find_transfer : MultiDayRequest → ℕ → Edited (Unit {0})
find_transfer request on_date =
    ensure (is_among on_date (transfer_dates request)) EditError.transfer_not_found

unfoldable pub set_transfer : UpdateTransferOp → TransferBlock → TransferBlock
set_transfer op t = record t {
  departure_time = given op.departure_time t.departure_time;
  arrival_time = given op.arrival_time t.arrival_time;
  label = cleared op.clear_label (requested_or op.label t.label);
}

-- Writing through the entry that `_find_transfer` returns: the first of that date.
unfoldable pub update_first : UpdateTransferOp → List TransferBlock → List TransferBlock
unfolding set_transfer
update_first op [] = []
update_first op (t ∷ ts) =
    if t.date == op.date then set_transfer op t ∷ ts else t ∷ update_first op ts

unfoldable pub handle_update_transfer : MultiDayRequest → UpdateTransferOp → Edited MultiDayRequest
unfolding update_first find_transfer
handle_update_transfer request op = find_transfer request op.date >>= λ found.
    ok (record request { transfers = update_first op request.transfers })

unfoldable pub handle_remove_transfer : MultiDayRequest → ℕ → Edited MultiDayRequest
unfolding find_transfer keep_if
handle_remove_transfer request on_date = find_transfer request on_date >>= λ found.
    ok (record request {
      transfers = keep_if (λ (t : TransferBlock). not (t.date == on_date)) request.transfers;
    })

-- `_NON_ACCOMMODATION_HANDLERS`; the loop passes over an accommodation operation.
unfoldable pub handle : MultiDayRequest → TripEditOperation → Edited MultiDayRequest
unfolding handle_set_place_auto handle_set_place_pinned handle_set_place_flexible
    handle_remove_place handle_update_day_window handle_set_transport_mode handle_add_transfer
    handle_update_transfer handle_remove_transfer
handle request (set_place_auto place_id) = handle_set_place_auto request place_id
handle request (set_place_pinned place_id slot) = handle_set_place_pinned request place_id slot
handle request (set_place_flexible place_id slots) =
    handle_set_place_flexible request place_id slots
handle request (remove_place place_id) = handle_remove_place request place_id
handle request (update_day_window op) = handle_update_day_window request op
handle request (set_transport_mode mode) = handle_set_transport_mode request mode
handle request (add_transfer op) = handle_add_transfer request op
handle request (update_transfer op) = handle_update_transfer request op
handle request (remove_transfer on_date) = handle_remove_transfer request on_date
handle request (accommodation op) = ok request

unfoldable pub handle_all : MultiDayRequest → List TripEditOperation → Edited MultiDayRequest
unfolding handle
handle_all request [] = ok request
handle_all request (op ∷ ops) = handle request op >>= λ next. handle_all next ops
