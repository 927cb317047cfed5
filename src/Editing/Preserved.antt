-- ===== src/Editing/Preserved.antt =====
-- What a batch of edits does to the places and days of a trip, whichever handlers it runs.
use travel_llm_planner.Common.{
  ℕ, zero, suc, ◌≡◌, refl, subst, ap, sym, ◌∙◌, same, String, Bool, true, false, not, ◌-◌, ◌||◌,
  List, [], ◌∷◌, map, length, Bool-cases, inl, inr,
}
use travel_llm_planner.Planner.{
  is_among, DaySlot, PlaceDayPreference, DayConfig, MultiDayRequest, day_dates, place_ids,
  transfer_dates, validate_request,
}
use travel_llm_planner.Editing.{
  EditError, Edited, ok, >>=-eq-ok, ensure, UpdateDayWindowOp, TripEditOperation, set_place_auto,
  set_place_pinned, set_place_flexible, remove_place, update_day_window, set_transport_mode,
  add_transfer, update_transfer, remove_transfer, accommodation,
}
use travel_llm_planner.Editing.Reconcile.{
  assert_place_in_trip, ensure_min_places, dedupe_flexible_slots, assert_day_index_in_range,
}
use travel_llm_planner.Editing.InPlace.{keep_if, update_at}
use travel_llm_planner.Editing.Handlers.{
  set_preferences, handle_set_place_auto, handle_set_place_pinned, handle_set_place_flexible,
  handle_remove_place, set_window, handle_update_day_window, handle_set_transport_mode,
  handle_add_transfer, handle_update_transfer, handle_remove_transfer, handle, handle_all,
  new_slots, find_transfer,
}
use travel_llm_planner.Editing.Outcome.{lodged, apply_operations-Finished}
use travel_llm_planner.Editing.Apply.{ApplyOutcome, apply_operations}

-- The operation removes the place.
abbrev pub removes_place : TripEditOperation → String → Bool
removes_place (remove_place place_id) id = same id place_id
removes_place op id = false

-- Some operation of the batch removes the place.
abbrev pub is_removed_by : List TripEditOperation → String → Bool
is_removed_by [] id = false
is_removed_by (op ∷ ops) id = removes_place op id || is_removed_by ops id

abbrev id_of : PlaceDayPreference → String
id_of p = p.place_id

abbrev date_of : DayConfig → ℕ
date_of d = d.date

set_preferences-ids :
    (place_id : String) (slots : List DaySlot) (places : List PlaceDayPreference)
    → map id_of (set_preferences place_id slots places) ≡ map id_of places
unfolding set_preferences
set_preferences-ids place_id slots [] = refl
set_preferences-ids place_id slots (p ∷ ps) = elim (Bool-cases (same p.place_id place_id)) [
  | inl hit ↦ rw hit refl
  | inr other ↦ rw other (ap (λ l. p.place_id ∷ l) (set_preferences-ids place_id slots ps))
]

keep_if-ids :
    (test : String → Bool) (places : List PlaceDayPreference)
    → map id_of (keep_if (λ (p : PlaceDayPreference). test p.place_id) places)
      ≡ keep_if test (map id_of places)
unfolding keep_if
keep_if-ids test [] = refl
keep_if-ids test (p ∷ ps) = elim (Bool-cases (test p.place_id)) [
  | inl hit ↦ rw hit (ap (λ l. p.place_id ∷ l) (keep_if-ids test ps))
  | inr other ↦ rw other (keep_if-ids test ps)
]

pub keep_if-all :
    (test : String → Bool) (ids : List String)
    → ((i : String) → test i ≡ true)
    → keep_if test ids ≡ ids
unfolding keep_if
keep_if-all test [] all = refl
keep_if-all test (i ∷ is) all = rw (all i) (ap (λ l. i ∷ l) (keep_if-all test is all))

keep_if-keep_if :
    (p q : String → Bool) (ids : List String)
    → keep_if (λ i. not (q i)) (keep_if (λ i. not (p i)) ids) ≡ keep_if (λ i. not (p i || q i)) ids
unfolding keep_if
keep_if-keep_if p q [] = refl
keep_if-keep_if p q (i ∷ is) = elim (Bool-cases (p i)) [
  | inl hit ↦ rw hit (keep_if-keep_if p q is)
  | inr other ↦ elim (Bool-cases (q i)) [
    | inl hit ↦ rw (other, hit) (keep_if-keep_if p q is)
    | inr neither ↦ rw (other, neither) (ap (λ l. i ∷ l) (keep_if-keep_if p q is))
  ]
]

set_window-dates :
    (op : UpdateDayWindowOp) (i : ℕ) (days : List DayConfig)
    → map date_of (update_at i (set_window op) days) ≡ map date_of days
unfolding update_at set_window
set_window-dates op i [] = refl
set_window-dates op zero (d ∷ ds) = refl
set_window-dates op (suc i) (d ∷ ds) = ap (λ l. d.date ∷ l) (set_window-dates op i ds)

-- What a batch leaves of the places, and the days that it leaves alone.
abbrev pub Follows : (String → Bool) → MultiDayRequest → MultiDayRequest → Type 0
Follows gone before after =
    (place_ids after ≡ keep_if (λ i. not (gone i)) (place_ids before))
    × (day_dates after ≡ day_dates before)
    × (after.accommodations ≡ before.accommodations)

from_ok :
    (P : MultiDayRequest → Type 0) {a b : MultiDayRequest}
    → ◌≡◌ {A = Edited MultiDayRequest} (ok a) (ok b)
    → P a
    → P b
from_ok P {a} {b} e p = let same_one : a ≡ b = cc in subst P same_one p

nothing_gone : (r : MultiDayRequest) → place_ids r ≡ keep_if (λ i. not false) (place_ids r)
nothing_gone r = sym (keep_if-all (λ i. true) (place_ids r) (λ i. refl))

-- Written preferences change neither the places nor the days.
preferences-Follows :
    (r : MultiDayRequest) (place_id : String) (slots : List DaySlot) {after : MultiDayRequest}
    → ◌≡◌ {A = Edited MultiDayRequest}
        (ok (record r { places = set_preferences place_id slots r.places }))
        (ok after)
    → Follows (λ i. false) r after
preferences-Follows r place_id slots e =
    from_ok (Follows (λ i. false) r) e
      (set_preferences-ids place_id slots r.places ∙ nothing_gone r, refl, refl)

handle-Follows :
    (r : MultiDayRequest) (op : TripEditOperation) {after : MultiDayRequest}
    → handle r op ≡ ok after
    → Follows (removes_place op) r after
unfolding handle handle_set_place_auto handle_set_place_pinned handle_set_place_flexible
    handle_remove_place handle_update_day_window handle_set_transport_mode handle_add_transfer
    handle_update_transfer handle_remove_transfer
handle-Follows r (set_place_auto place_id) e =
    let (place, found, done) = >>=-eq-ok (assert_place_in_trip r.places place_id) _ e in
    preferences-Follows r place_id [] done
handle-Follows r (set_place_pinned place_id slot) e =
    let (place, found, rest) = >>=-eq-ok (assert_place_in_trip r.places place_id) _ e in
    let (in_range, ranged, done) =
      >>=-eq-ok (assert_day_index_in_range (length r.days) slot.day_index) _ rest in
    preferences-Follows r place_id _ done
handle-Follows r (set_place_flexible place_id slots) e =
    let (place, found, rest) = >>=-eq-ok (assert_place_in_trip r.places place_id) _ e in
    let (distinct, deduped, more) = >>=-eq-ok (dedupe_flexible_slots slots) _ rest in
    let (preferences, made, done) =
      >>=-eq-ok (new_slots (length r.days) place.day_preferences slots) _ more in
    preferences-Follows r place_id preferences done
handle-Follows r (remove_place place_id) e =
    let (place, found, rest) = >>=-eq-ok (assert_place_in_trip r.places place_id) _ e in
    let (enough, counted, done) = >>=-eq-ok (ensure_min_places (length r.places - 1)) _ rest in
    from_ok (Follows (λ i. same i place_id) r) done
      (keep_if-ids (λ i. not (same i place_id)) r.places, refl, refl)
handle-Follows r (update_day_window op) e =
    let (in_range, ranged, done) =
      >>=-eq-ok (assert_day_index_in_range (length r.days) op.day_index) _ e in
    from_ok (Follows (λ i. false) r) done
      (nothing_gone r, set_window-dates op op.day_index r.days, refl)
handle-Follows r (set_transport_mode mode) e =
    from_ok (Follows (λ i. false) r) e (nothing_gone r, refl, refl)
handle-Follows r (add_transfer op) e =
    let (fresh, new, rest) =
      >>=-eq-ok
        (ensure (not (is_among op.date (transfer_dates r))) EditError.transfer_already_exists) _
        e in
    let (among, day, done) =
      >>=-eq-ok (ensure (is_among op.date (day_dates r)) EditError.invalid_day_index) _ rest in
    from_ok (Follows (λ i. false) r) done (nothing_gone r, refl, refl)
handle-Follows r (update_transfer op) e =
    let (found, there, done) = >>=-eq-ok (find_transfer r op.date) _ e in
    from_ok (Follows (λ i. false) r) done (nothing_gone r, refl, refl)
handle-Follows r (remove_transfer on_date) e =
    let (found, there, done) = >>=-eq-ok (find_transfer r on_date) _ e in
    from_ok (Follows (λ i. false) r) done (nothing_gone r, refl, refl)
handle-Follows r (accommodation op) e =
    from_ok (Follows (λ i. false) r) e (nothing_gone r, refl, refl)

pub handle_all-Follows :
    (ops : List TripEditOperation) (r : MultiDayRequest) {after : MultiDayRequest}
    → handle_all r ops ≡ ok after
    → Follows (is_removed_by ops) r after
unfolding handle_all
handle_all-Follows [] r e = from_ok (Follows (λ i. false) r) e (nothing_gone r, refl, refl)
handle_all-Follows (op ∷ ops) r {after} e =
    let (next, first, rest) = >>=-eq-ok (handle r op) (λ n. handle_all n ops) e in
    let (ids, dates, stays) = handle-Follows r op first in
    let (later_ids, later_dates, later_stays) = handle_all-Follows ops next rest in
    let gone = removes_place op in
    let later = is_removed_by ops in
    (
      later_ids ∙ ap (keep_if (λ i. not (later i))) ids ∙ keep_if-keep_if gone later (place_ids r),
      later_dates ∙ dates,
      later_stays ∙ stays,
    )

-- After a batch that succeeds, the places are those of before without the ones that the batch
-- removes, in the same order, the days have the dates of before, and the request is valid.
pub apply_operations-Preserves :
    (request : MultiDayRequest) (operations : List TripEditOperation) {out : ApplyOutcome}
    → apply_operations request operations ≡ ok out
    → (place_ids out.request
        ≡ keep_if (λ id. not (is_removed_by operations id)) (place_ids request))
      × (day_dates out.request ≡ day_dates request)
      × (validate_request out.request ≡ true)
apply_operations-Preserves request operations e =
    let (resolved, edited, selected, handled, finished) =
      apply_operations-Finished request operations e in
    let (kept, reconciled, final, valid) = finished in
    let (ids, dates, stays) = handle_all-Follows operations (lodged request resolved) handled in
    (
      ap (λ (r : MultiDayRequest). place_ids r) final ∙ ids,
      ap (λ (r : MultiDayRequest). day_dates r) final ∙ dates,
      valid,
    )
