-- ===== src/Service/Tests.antt =====
-- A day from a hotel to a station with a museum that must be seen, a café that need not be, and a
-- place that nobody knows where it is.
use mathlib.Core.List.Perm
use travel_llm_planner.Common.{
  ℕ, ◌≤◌, ◌≡◌, refl, sym, String, true, false, Option, none, some, List, [], ◌∷◌, Dict, lookup,
  arith, ◌⊎◌, inl, inr, same, same→eq, Bool-cases,
}
use travel_llm_planner.Common.Counting.{occurrences}
use travel_llm_planner.Common.Raising.{ok, raise, ◌>>=◌, for_each}
use travel_llm_planner.Clock.{resolve_day_bound_s}
use travel_llm_planner.Engine.Schedule.{Stop}
use travel_llm_planner.Engine.Nearest.{contains}
use travel_llm_planner.Matrix.{TransportMode, DistanceMatrix, MatrixEntry, walk}
use travel_llm_planner.Planner.{is_among_ids, are_unique_ids}
use travel_llm_planner.Places.{PlaceDoc}
use travel_llm_planner.Service.{Failure, OptimizeRequest, OptimizeResponse}
use travel_llm_planner.Service.Counts.{are_unique_ids-once}
use travel_llm_planner.Service.Priorities.{
  Solved, solve_with_priorities, solve_tier, any_must_see, is_must_see, select, is_not_optional,
  weights_of,
}
use travel_llm_planner.Service.MustSee.{KeepsAll, solve_with_priorities-KeepsAll}
use travel_llm_planner.Service.Eligible.{Coord}
use travel_llm_planner.Service.Route.{MatrixAnswer, optimize_route, record_stop, no_totals}
use travel_llm_planner.Service.Ends.{IsPlaceList}
use travel_llm_planner.Service.Assembled.{IsAnswer}
use travel_llm_planner.Service.Answered.{NoMatrix, optimize_route-Answers}

abbrev leg : String → String → ℕ → (String × String) × MatrixEntry
leg o d s = ((o, d), record { origin_id = o; dest_id = d; distance_m = s; duration_s = s })

abbrev town : DistanceMatrix
town = record {
  entries =
      leg "museum" "cafe" 600
      ∷ leg "cafe" "museum" 600
      ∷ leg "__start__" "museum" 300
      ∷ leg "__start__" "cafe" 900
      ∷ leg "museum" "__end__" 1200
      ∷ leg "cafe" "__end__" 300
      ∷ [];
  transport_mode = walk;
  computed_at = 0;
}

abbrev as_listed : List String → List String
as_listed s = s

abbrev place : String → Option ℕ → String → PlaceDoc
place id lat priority = record {
  id = id;
  name = some id;
  lat = lat;
  lng = some 200_000_000;
  priority = some priority;
  visit_duration_min = some 60;
  hours = record { preferred_hour_from = none; preferred_hour_to = none; periods = [] };
}

abbrev known_places : List String → List PlaceDoc
known_places ids =
    place "museum" (some 140_000_000) "must_see"
    ∷ place "cafe" (some 140_010_000) "optional"
    ∷ place "secret" none "normal"
    ∷ []

abbrev travel_times :
    List Coord → TransportMode → Option ℕ → Option Coord → Option Coord → MatrixAnswer
travel_times coords mode moment start_anchor end_anchor = record {
  matrix = some town;
  status = none;
  error = none;
}

abbrev outing : OptimizeRequest
outing = record {
  place_ids = "museum" ∷ "cafe" ∷ "secret" ∷ [];
  transport_mode = walk;
  day_start_hour = 9;
  day_end_hour = 12;
  day_start_time = none;
  day_end_time = none;
  start_lat = some 140_005_000;
  start_lng = some 200_000_000;
  end_lat = some 140_015_000;
  end_lng = some 200_000_000;
  departure_date = some 738_000;
}

places_of_outing : IsPlaceList outing.place_ids
unfolding are_unique_ids is_among_ids occurrences
places_of_outing = record {
  distinct = are_unique_ids-once outing.place_ids refl;
  few = omega arith;
  no_start = refl;
  no_end = refl;
}

optimize_route-Answers_example :
    ((response : OptimizeResponse) × (optimize_route as_listed known_places travel_times 0 outing
          none
        ≡ ok response)
      × IsAnswer outing.place_ids response)
    ⊎ (status : String) × (error : Option String) × (optimize_route as_listed known_places
          travel_times 0 outing none
        ≡ raise (Failure.matrix_unavailable status error))
      × NoMatrix as_listed (λ s. Perm.rfl) known_places travel_times 0
unfolding resolve_day_bound_s
optimize_route-Answers_example =
    optimize_route-Answers as_listed (λ s. Perm.rfl) known_places travel_times 0 outing none
      places_of_outing (omega arith)

abbrev stop_at : String → ℕ → ℕ → ℕ → Stop
stop_at id arrival departure travel = record {
  place_id = id;
  arrival_s = arrival;
  departure_s = departure;
  travel_s = travel;
}

-- The leg to the end is counted once and reported beside the total.
recorded_day :
    (for_each
        (record_stop
          (some "__start__")
          (some "__end__")
          (("museum", place "museum" (some 140_000_000) "must_see") ∷ [])
          (("museum", 3600) ∷ []))
        no_totals
        (stop_at "__start__" 32400 32400 0
          ∷ stop_at "museum" 32700 36300 300
          ∷ stop_at "__end__" 37500 37500 1200
          ∷ [])
      >>= λ totals.
          ok (totals.total_travel_s ∷ totals.travel_to_end_s ∷ totals.total_visit_min ∷ []))
    ≡ ok (1500 ∷ 1200 ∷ 60 ∷ [])
unfolding for_each record_stop lookup
recorded_day = refl

abbrev two : List String
two = "museum" ∷ "cafe" ∷ []

abbrev wishes : Dict String
wishes = ("museum", "must_see") ∷ ("cafe", "optional") ∷ []

abbrev visits : Dict ℕ
visits = ("museum", 3600) ∷ ("cafe", 3600) ∷ []

two-once : (x : String) → occurrences x two ≤ 1
unfolding are_unique_ids is_among_ids
two-once = are_unique_ids-once two refl

wishes_lem : (n : String) → is_must_see wishes n ≡ true → contains two n ≡ true
unfolding contains lookup
wishes_lem n h = elim (Bool-cases (same "museum" n)) [
  | inl hit ↦ rw (sym (same→eq "museum" n hit)) refl
  | inr miss ↦ elim (Bool-cases (same "cafe" n)) [
    | inl hit ↦ rw (sym (same→eq "cafe" n hit)) refl
    | inr also ↦ cc (rw (miss, also) at h)
  ]
]

abbrev solved_by : List String → List String × List String
solved_by = solve_tier as_listed town [] visits 32400 43200 none none (weights_of wishes two)

no_anchors : (x : String) → 1 ≤ occurrences x [] → occurrences x two ≡ 0
unfolding occurrences
no_anchors x never = absurd (let k : 1 ≤ 0 = never in omega arith)

no_anchor_twice : (x : String) → occurrences x [] ≤ 1
unfolding occurrences
no_anchor_twice x = let k : 0 ≤ 1 = omega arith in k

solve_with_priorities-KeepsAll_example :
    (final : Solved) × (solve_with_priorities as_listed town [] visits 32400 43200 none none two
        wishes
      ≡ some final)
    × KeepsAll as_listed town [] visits 32400 43200
        (λ s. Perm.rfl)
        (omega arith)
        none
        none
        tt
        two
        two-once
        no_anchors
        no_anchor_twice
        wishes
        final
    × ((tier : List String)
        → (tier ≡ two)
          ⊎ (tier ≡ select (is_not_optional wishes) two)
          ⊎ (tier ≡ select (is_must_see wishes) two)
        → any_must_see wishes (solved_by tier).1 ≡ false
        → (x : String) → is_must_see wishes x ≡ true
        → 1 ≤ occurrences x final.route)
unfolding occurrences
solve_with_priorities-KeepsAll_example =
    solve_with_priorities-KeepsAll as_listed town [] visits 32400 43200 (λ s. Perm.rfl)
      (omega arith) none none tt two two-once no_anchors no_anchor_twice wishes wishes_lem
      (omega arith)
