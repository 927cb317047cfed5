-- ===== src/MultiDay/Planned/Requests.antt =====
-- What the validators of a multi-day request assure.
use travel_llm_planner.Common.{
  suc, ◌≤◌, ◌≡◌, refl, ap, true, List, [], ◌∷◌, length, leb→le, &&-eq-true,
}
use travel_llm_planner.Planner.{
  PlaceDayPreference, MultiDayRequest, both_or_neither, every, validate_request, validate_fields,
  validate_model, validate_day, validate_transfer, validate_day_indices, place_ids, are_unique_ids,
}
use travel_llm_planner.MultiDay.Partition.Accounted.{wanted_ids}

-- `MultiDayRequest.model_validate`, read off.
pub record RequestFacts (request : MultiDayRequest) : Type 0 where
  pub some_day : 1 ≤ length request.days
  pub few : length (place_ids request) ≤ 50
  pub days : every validate_day request.days ≡ true
  pub transfers : every validate_transfer request.transfers ≡ true
  pub indices : validate_day_indices (length request.days) request.places ≡ true
  pub unique : are_unique_ids (place_ids request) ≡ true
  pub start : both_or_neither request.start_lat request.start_lng ≡ true
  pub finish : both_or_neither request.end_lat request.end_lng ≡ true

length-place_ids : (ps : List PlaceDayPreference) → length (wanted_ids ps) ≡ length ps
length-place_ids [] = refl
length-place_ids (p ∷ ps) = ap suc (length-place_ids ps)

pub validate_request-RequestFacts :
    (request : MultiDayRequest) → validate_request request ≡ true → RequestFacts request
unfolding validate_request validate_fields validate_model
validate_request-RequestFacts request valid =
    let (fields, model) = &&-eq-true _ _ valid in
    let (f₆, transfers) = &&-eq-true _ _ fields in
    let (f₅, stays) = &&-eq-true _ _ f₆ in
    let (f₄, days) = &&-eq-true _ _ f₅ in
    let (f₃, few) = &&-eq-true _ _ f₄ in
    let (f₂, some_place) = &&-eq-true _ _ f₃ in
    let (some_day, few_days) = &&-eq-true _ _ f₂ in
    let (m₉, conflicts) = &&-eq-true _ _ model in
    let (m₈, transitions) = &&-eq-true _ _ m₉ in
    let (m₇, transfer_dates) = &&-eq-true _ _ m₈ in
    let (m₆, dates) = &&-eq-true _ _ m₇ in
    let (m₅, overlaps) = &&-eq-true _ _ m₆ in
    let (m₄, finish) = &&-eq-true _ _ m₅ in
    let (m₃, start) = &&-eq-true _ _ m₄ in
    let (m₂, unique) = &&-eq-true _ _ m₃ in
    let (mode, indices) = &&-eq-true _ _ m₂ in
    record {
      some_day = leb→le 1 _ some_day;
      few = rw (length-place_ids request.places) (leb→le _ 50 few);
      days = days;
      transfers = transfers;
      indices = indices;
      unique = unique;
      start = start;
      finish = finish;
    }
