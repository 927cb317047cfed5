-- ===== src/Editing/Lodging.antt =====
-- The accommodation operations of src/trips/editing/apply.py: updates, then removals, then additions.
use travel_llm_planner.Common.{ℕ, suc, if◌then◌else◌, List, [], ◌∷◌, ◌++◌}
use travel_llm_planner.Accommodations.{AccommodationStay}
use travel_llm_planner.Planner.{is_among}
use travel_llm_planner.Editing.{UpdateAccommodationOp}
use travel_llm_planner.Editing.Reconcile.{requested_or, ResolvedOp, adds, updates, removes}
use travel_llm_planner.Editing.InPlace.{update_at, given, cleared}

unfoldable pub apply_accommodation_update :
    UpdateAccommodationOp → AccommodationStay → AccommodationStay
apply_accommodation_update op stay = record {
  name = given op.name stay.name;
  lat = given op.lat stay.lat;
  lng = given op.lng stay.lng;
  check_in_date = given op.check_in_date stay.check_in_date;
  check_out_date = given op.check_out_date stay.check_out_date;
  check_in_from = cleared op.clear_check_in_from (requested_or op.check_in_from stay.check_in_from);
  check_out_by = cleared op.clear_check_out_by (requested_or op.check_out_by stay.check_out_by);
}

-- First every update, in place.
unfoldable pub apply_updates : List ResolvedOp → List AccommodationStay → List AccommodationStay
unfolding update_at apply_accommodation_update
apply_updates [] stays = stays
apply_updates (updates i op ∷ ops) stays =
    apply_updates ops (update_at i (apply_accommodation_update op) stays)
apply_updates (adds s ∷ ops) stays = apply_updates ops stays
apply_updates (removes i ∷ ops) stays = apply_updates ops stays

unfoldable pub removed_indices : List ResolvedOp → List ℕ
removed_indices [] = []
removed_indices (removes i ∷ ops) = i ∷ removed_indices ops
removed_indices (adds s ∷ ops) = removed_indices ops
removed_indices (updates i op ∷ ops) = removed_indices ops

-- `[stay for index, stay in enumerate(stays) if index not in removed]`
unfoldable pub without_indices : List ℕ → ℕ → List AccommodationStay → List AccommodationStay
without_indices removed index [] = []
without_indices removed index (s ∷ ss) =
    if is_among index removed
    then without_indices removed (suc index) ss
    else s ∷ without_indices removed (suc index) ss

unfoldable pub added_stays : List ResolvedOp → List AccommodationStay
added_stays [] = []
added_stays (adds s ∷ ops) = s ∷ added_stays ops
added_stays (updates i op ∷ ops) = added_stays ops
added_stays (removes i ∷ ops) = added_stays ops

unfoldable pub apply_accommodation_ops :
    List ResolvedOp → List AccommodationStay → List AccommodationStay
unfolding apply_updates removed_indices without_indices added_stays
apply_accommodation_ops ops stays =
    without_indices (removed_indices ops) 0 (apply_updates ops stays) ++ added_stays ops
