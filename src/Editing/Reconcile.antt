-- ===== src/Editing/Reconcile.antt =====
-- src/trips/editing/reconcile.py. A dump of the request is modelled by the request's own record,
-- which is not validated until the end. A raised `ValidationError` is the error it becomes in
-- apply.py.
use travel_llm_planner.Common.{
  ℕ, suc, ltb, leb, ◌==◌, same, if◌then◌else◌, String, Bool, not, ◌&&◌, ◌||◌, Option, none, some,
  List, [], ◌∷◌, get_elem?,
}
use travel_llm_planner.Accommodations.{
  AccommodationStay, validate_stay, resolve_day, is_transition_day,
}
use travel_llm_planner.Planner.{every, is_among, DaySlot, PlaceDayPreference, TransferBlock}
use travel_llm_planner.Editing.{
  EditError, Edited, ok, raise, ◌>>=◌, ensure, AccommodationOp, add_accommodation,
  update_accommodation, remove_accommodation, UpdateAccommodationOp, DaySlotOp,
}

unfoldable pub assert_place_in_trip : List PlaceDayPreference → String → Edited PlaceDayPreference
assert_place_in_trip [] place_id = raise EditError.place_not_in_trip
assert_place_in_trip (place ∷ places) place_id =
    if same place.place_id place_id then ok place else assert_place_in_trip places place_id

unfoldable pub assert_day_index_in_range : ℕ → ℕ → Edited (Unit {0})
assert_day_index_in_range num_days day_index =
    ensure (ltb day_index num_days) EditError.invalid_day_index

unfoldable pub ensure_min_places : ℕ → Edited (Unit {0})
ensure_min_places count = ensure (leb 2 count) EditError.too_few_places

-- `next((slot for slot in existing_slots if slot["day_index"] == day_index), None)`
unfoldable pub find_slot : ℕ → List DaySlot → Option DaySlot
find_slot day_index [] = none
find_slot day_index (slot ∷ slots) =
    if slot.day_index == day_index then some slot else find_slot day_index slots

-- `requested if requested is not None else base`
abbrev pub requested_or {ℓ} : {A : Type ℓ} → Option A → Option A → Option A
requested_or none base = base
requested_or (some requested) base = some requested

abbrev pub base_from : Option DaySlot → Option ℕ
base_from none = none
base_from (some slot) = slot.preferred_hour_from

abbrev pub base_to : Option DaySlot → Option ℕ
base_to none = none
base_to (some slot) = slot.preferred_hour_to

unfoldable pub merge_preserved_hours : List DaySlot → ℕ → Option ℕ → Option ℕ → Option ℕ × Option ℕ
unfolding find_slot
merge_preserved_hours existing_slots day_index requested_from requested_to =
    let existing = find_slot day_index existing_slots in
    (requested_or requested_from (base_from existing), requested_or requested_to (base_to existing))

-- The loop, with the days that it has seen.
unfoldable pub dedupe_from : List ℕ → List DaySlotOp → Edited (Unit {0})
dedupe_from seen [] = ok tt
dedupe_from seen (slot ∷ slots) =
    if is_among slot.day_index seen
    then raise EditError.operation_validation
    else dedupe_from (slot.day_index ∷ seen) slots

unfoldable pub dedupe_flexible_slots : List DaySlotOp → Edited (Unit {0})
unfolding dedupe_from
dedupe_flexible_slots slots = dedupe_from [] slots

-- A position in the list before the batch, with the stay there.
abbrev pub Placed : Type 0
Placed = ℕ × AccommodationStay

abbrev pub enumerate : ℕ → List AccommodationStay → List Placed
enumerate i [] = []
enumerate i (s ∷ ss) = (i, s) ∷ enumerate (suc i) ss

unfoldable pub insert_placed : Placed → List Placed → List Placed
insert_placed (i, s) [] = (i, s) ∷ []
insert_placed (i, s) ((j, t) ∷ ps) =
    if leb s.check_in_date t.check_in_date
    then (i, s) ∷ (j, t) ∷ ps
    else (j, t) ∷ insert_placed (i, s) ps

unfoldable pub sort_placed : List Placed → List Placed
unfolding insert_placed
sort_placed [] = []
sort_placed (p ∷ ps) = insert_placed p (sort_placed ps)

-- `sorted(range(len(pre_batch_stays)), key=...)`, each position with its stay.
unfoldable pub sorted_positions : List AccommodationStay → List Placed
unfolding sort_placed
sorted_positions pre_batch_stays = sort_placed (enumerate 0 pre_batch_stays)

-- An operation with the index that `resolved` holds for it.
pub data ResolvedOp : Type 0 where
  adds : AccommodationStay → ResolvedOp
  updates : ℕ → UpdateAccommodationOp → ResolvedOp
  removes : ℕ → ResolvedOp

-- The body of the loop for one selector: the original index, not claimed before.
unfoldable pub resolve_selector : List Placed → List ℕ → ℕ → Edited ℕ
resolve_selector positions claimed selector = elim (get_elem? positions selector) [
  | none ↦ raise EditError.accommodation_not_found
  | some (original_index, stay) ↦
      if is_among original_index claimed
      then raise EditError.accommodation_selector_conflict
      else ok original_index
]

unfoldable pub resolve_from : List Placed → List ℕ → List AccommodationOp → Edited (List ResolvedOp)
unfolding resolve_selector
resolve_from positions claimed [] = ok []
resolve_from positions claimed (add_accommodation stay ∷ ops) =
    resolve_from positions claimed ops >>= λ rest. ok (adds stay ∷ rest)
resolve_from positions claimed (update_accommodation op ∷ ops) =
    resolve_selector positions claimed op.stay_index >>= λ i.
    resolve_from positions (i ∷ claimed) ops >>= λ rest. ok (updates i op ∷ rest)
resolve_from positions claimed (remove_accommodation stay_index ∷ ops) =
    resolve_selector positions claimed stay_index >>= λ i.
    resolve_from positions (i ∷ claimed) ops >>= λ rest. ok (removes i ∷ rest)

unfoldable pub resolve_accommodation_selectors :
    List AccommodationStay → List AccommodationOp → Edited (List ResolvedOp)
unfolding resolve_from sorted_positions
resolve_accommodation_selectors pre_batch_stays ops =
    resolve_from (sorted_positions pre_batch_stays) [] ops

-- `is_changeover or transfer_date not in reconcilable_dates`
unfoldable pub is_kept : List ℕ → List AccommodationStay → List ℕ → TransferBlock → Bool
is_kept dates stays reconcilable_dates t =
    (is_among t.date dates && is_transition_day (resolve_day stays t.date))
    || not (is_among t.date reconcilable_dates)

-- The loop: the transfers that are kept, and the dates of those that are dropped.
unfoldable pub partition_transfers :
    (TransferBlock → Bool) → List TransferBlock → List TransferBlock × List ℕ
partition_transfers keep [] = ([], [])
partition_transfers keep (t ∷ ts) =
    let rest = partition_transfers keep ts in
    if keep t then (t ∷ rest.0, rest.1) else (rest.0, t.date ∷ rest.1)

unfoldable pub reconcile_transfers_after_transition_change :
    List ℕ
    → List AccommodationStay
    → List TransferBlock
    → List ℕ
    → Edited (List TransferBlock × List ℕ)
unfolding is_kept partition_transfers
reconcile_transfers_after_transition_change dates stays [] reconcilable_dates = ok ([], [])
reconcile_transfers_after_transition_change dates stays (t ∷ ts) reconcilable_dates =
    if every validate_stay stays
    then ok (partition_transfers (is_kept dates stays reconcilable_dates) (t ∷ ts))
    else raise EditError.trip_edit_validation
