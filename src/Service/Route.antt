-- ===== src/Service/Route.antt =====
-- `optimize_route` of src/optimizer/solver/service.py.
-- Parameters: `walk` as in Engine/Nearest.antt; `fetch_places_by_ids` reads the places' documents
-- from the database; `get_matrix` reads or buys the travel times; `now` is the clock. A moment is in
-- seconds, from midnight before day 0.
use travel_llm_planner.Common.{
  ℕ, ◌+◌, ◌-◌, ◌*◌, ◌/◌, max, ltb, ◌==◌, same, not, if◌then◌else◌, String, Bool, true, false, ◌&&◌,
  ◌||◌, Option, none, some, or_else, List, [], ◌∷◌, ◌++◌, map, length, Dict, lookup,
}
use travel_llm_planner.Common.Raising.{Raising, raise, ok, ◌>>=◌, for_each}
use travel_llm_planner.Clock.{resolve_day_bound_s, seconds_to_time, since_midnight}
use travel_llm_planner.Matrix.{TransportMode, DistanceMatrix, get}
use travel_llm_planner.Places.{PlaceDoc, SkippedPlace, doc_map, priority_of, google_weekday}
use travel_llm_planner.Engine.Schedule.{Stop, schedule_route}
use travel_llm_planner.Engine.TwoOpt.{two_opt}
use travel_llm_planner.Service.{Failure, OptimizeRequest, OptimizeResponse, RouteStep}
use travel_llm_planner.Service.Eligible.{Coord, Eligible, eligible, skipping}
use travel_llm_planner.Service.Priorities.{Solved, solve_with_priorities, dropped_of}

-- What `get_matrix` returns.
pub record MatrixAnswer : Type 0 where
  pub matrix : Option DistanceMatrix
  pub status : Option String
  pub error : Option String

-- The variables of the last loop.
pub record Totals : Type 0 where
  pub steps : List RouteStep
  pub total_travel_s : ℕ
  pub total_visit_min : ℕ
  pub total_wait_min : ℕ
  pub travel_to_end_s : ℕ

abbrev pub start_anchor_id : String
start_anchor_id = "__start__"

abbrev pub end_anchor_id : String
end_anchor_id = "__end__"

-- An anchor, where both coordinates are given.
unfoldable pub anchor_at : String → Option ℕ → Option ℕ → Option Coord
anchor_at id (some lat) (some lng) = some (record { place_id = id; lat = lat; lng = lng })
anchor_at id (some lat) none = none
anchor_at id none lng = none

abbrev pub id_of : Option Coord → Option String
id_of none = none
id_of (some c) = some c.place_id

-- `departure_time`: a moment in the past is moved to now.
unfoldable pub departure_moment : ℕ → ℕ → Option ℕ → Option ℕ
departure_moment now day_start_s none = none
departure_moment now day_start_s (some date) =
    some (max (date * 86400 + since_midnight (seconds_to_time day_start_s)) now)

abbrev pub weekday_of : Option ℕ → Option ℕ
weekday_of none = none
weekday_of (some date) = some (google_weekday date)

-- `status or "UNKNOWN"`
abbrev pub known_status : Option String → String
known_status none = "UNKNOWN"
known_status (some text) = if same text "" then "UNKNOWN" else text

-- `doc_map[place_id]` and `visit_durations_s[place_id]`
abbrev pub at_key : {V : Type 0} → Option V → Raising Failure V
at_key none = raise Failure.key_error
at_key (some v) = ok v

-- `priorities`
unfoldable pub priorities_of : Dict PlaceDoc → List Coord → Raising Failure (Dict String)
priorities_of docs [] = ok []
priorities_of docs (c ∷ cs) = at_key (lookup c.place_id docs) >>= λ doc.
    priorities_of docs cs >>= λ rest. ok ((c.place_id, priority_of doc) ∷ rest)

abbrev pub is_some {ℓ} : {A : Type ℓ} → Option A → Bool
is_some none = false
is_some (some a) = true

-- `actual_edges`
unfoldable pub actual_edges : DistanceMatrix → String → List String → ℕ
actual_edges matrix place_id [] = 0
actual_edges matrix place_id (other ∷ others) =
    (if not (same other place_id)
        && (is_some (get matrix place_id other) || is_some (get matrix other place_id))
      then 1
      else 0)
    + actual_edges matrix place_id others

-- Why the solver has left a place out.
unfoldable pub skip_reason : DistanceMatrix → List String → String → String
unfolding actual_edges
skip_reason matrix final_candidates place_id =
    let actual = actual_edges matrix place_id final_candidates in
    if actual == 0
    then "NO_MATRIX_ENTRY"
    else if ltb actual (length final_candidates - 1)
    then "MATRIX_INCOMPLETE"
    else "TIME_WINDOW_INFEASIBLE"

-- The loops that append to `skipped`, each place with its reason.
unfoldable pub skip_all :
    Dict PlaceDoc
    → (String → String)
    → List SkippedPlace
    → List String
    → Raising Failure (List SkippedPlace)
skip_all docs reason skipped [] = ok skipped
skip_all docs reason skipped (id ∷ ids) = at_key (lookup id docs) >>= λ doc.
    skip_all docs reason (skipped ++ skipping id doc.name (reason id) ∷ []) ids

abbrev pub is_anchor : Option String → String → Bool
is_anchor none id = false
is_anchor (some anchor) id = same id anchor

abbrev pub step_of : PlaceDoc → ℕ → Stop → RouteStep
step_of doc visit_s stop = record {
  place_id = stop.place_id;
  name = doc.name;
  lat = doc.lat;
  lng = doc.lng;
  arrival_time = seconds_to_time stop.arrival_s;
  departure_time = seconds_to_time stop.departure_s;
  travel_from_previous_s = stop.travel_s;
  visit_duration_min = visit_s / 60;
  wait_min = (stop.departure_s - visit_s - stop.arrival_s) / 60;
}

-- A stop at a place, after its travel is counted.
unfoldable pub visit_stop : Dict PlaceDoc → Dict ℕ → Totals → Stop → Raising Failure Totals
visit_stop docs visit_durations_s t stop = at_key (lookup stop.place_id docs) >>= λ doc.
    at_key (lookup stop.place_id visit_durations_s) >>= λ visit_s. ok (record t {
      steps = t.steps ++ step_of doc visit_s stop ∷ [];
      total_visit_min = t.total_visit_min + visit_s / 60;
      total_wait_min = t.total_wait_min + (stop.departure_s - visit_s - stop.arrival_s) / 60;
    })

-- The body of the last loop.
unfoldable pub record_stop :
    Option String → Option String → Dict PlaceDoc → Dict ℕ → Totals → Stop → Raising Failure Totals
unfolding visit_stop
record_stop start_id end_id docs visit_durations_s t stop =
    let travelled = record t { total_travel_s = t.total_travel_s + stop.travel_s } in
    let visited = visit_stop docs visit_durations_s travelled stop in
    if is_anchor end_id stop.place_id
    then ok (record travelled { travel_to_end_s = stop.travel_s })
    else if is_anchor start_id stop.place_id
    then ok travelled
    else visited

abbrev pub no_totals : Totals
no_totals = record {
  steps = [];
  total_travel_s = 0;
  total_visit_min = 0;
  total_wait_min = 0;
  travel_to_end_s = 0;
}

abbrev pub response_of : TransportMode → List SkippedPlace → Totals → OptimizeResponse
response_of mode skipped t = record {
  steps = t.steps;
  total_travel_time_s = t.total_travel_s;
  total_visit_time_min = t.total_visit_min;
  total_wait_min = t.total_wait_min;
  transport_mode = mode;
  skipped = skipped;
  travel_to_end_s = t.travel_to_end_s;
}

-- `assert best is not None`
abbrev pub asserted : Option Solved → Raising Failure Solved
asserted none = raise Failure.assertion_error
asserted (some best) = ok best

-- `node_ids`
abbrev pub node_ids : List Coord → List String
node_ids coords = map (λ (c : Coord). c.place_id) coords

module _ (walk : List String → List String) where
  -- From the matrix on.
  unfoldable pub solve_route :
      OptimizeRequest
      → Dict PlaceDoc
      → Eligible
      → Option String
      → Option String
      → DistanceMatrix
      → Raising Failure OptimizeResponse
  unfolding priorities_of skip_reason skip_all record_stop
  solve_route request docs e start_id end_id matrix =
      let day_start_s = resolve_day_bound_s request.day_start_hour request.day_start_time in
      let day_end_s = resolve_day_bound_s request.day_end_hour request.day_end_time in
      priorities_of docs e.coords >>= λ priorities.
      asserted (
        solve_with_priorities walk matrix e.time_windows e.visit_durations_s day_start_s day_end_s
          start_id end_id (node_ids e.coords) priorities)
      >>= λ best.
          let route =
            two_opt matrix e.time_windows e.visit_durations_s day_start_s day_end_s best.route 100
              (is_some end_id) in
          skip_all docs (λ _. "DROPPED_LOW_PRIORITY") e.skipped
            (dropped_of (node_ids e.coords) best)
          >>= λ with_dropped.
              skip_all docs (skip_reason matrix best.candidates) with_dropped best.solver_skipped
              >>= λ skipped.
                  for_each (record_stop start_id end_id docs e.visit_durations_s) no_totals
                    (schedule_route matrix e.time_windows e.visit_durations_s day_start_s route)
                  >>= λ totals. ok (response_of request.transport_mode skipped totals)

  module _ (fetch_places_by_ids : List String → List PlaceDoc)
      (get_matrix : List Coord
        → TransportMode
        → Option ℕ
        → Option Coord
        → Option Coord
        → MatrixAnswer)
      (now : ℕ) where
    unfoldable pub with_answer :
        OptimizeRequest
        → Dict PlaceDoc
        → Eligible
        → Option Coord
        → Option Coord
        → MatrixAnswer
        → Raising Failure OptimizeResponse
    unfolding solve_route
    with_answer request docs e start_anchor end_anchor answer = elim answer.matrix [
      | none ↦ raise (Failure.matrix_unavailable (known_status answer.status) answer.error)
      | some matrix ↦ solve_route request docs e (id_of start_anchor) (id_of end_anchor) matrix
    ]

    -- From the filtered places on.
    unfoldable pub route_eligible :
        OptimizeRequest → Dict PlaceDoc → Eligible → List Coord → Raising Failure OptimizeResponse
    unfolding with_answer anchor_at departure_moment
    route_eligible request docs e [] = ok (response_of request.transport_mode e.skipped no_totals)
    route_eligible request docs e (c ∷ cs) =
        let day_start_s = resolve_day_bound_s request.day_start_hour request.day_start_time in
        let start_anchor = anchor_at start_anchor_id request.start_lat request.start_lng in
        let end_anchor = anchor_at end_anchor_id request.end_lat request.end_lng in
        with_answer request docs e start_anchor end_anchor (
          get_matrix (c ∷ cs) request.transport_mode
            (departure_moment now day_start_s request.departure_date) start_anchor end_anchor)

    unfoldable pub optimize_route :
        OptimizeRequest → Option (List PlaceDoc) → Raising Failure OptimizeResponse
    unfolding route_eligible eligible doc_map
    optimize_route request docs =
        let day_start_s = resolve_day_bound_s request.day_start_hour request.day_start_time in
        let day_end_s = resolve_day_bound_s request.day_end_hour request.day_end_time in
        let index = doc_map (or_else docs (fetch_places_by_ids request.place_ids)) [] in
        let e =
          eligible index day_start_s day_end_s (weekday_of request.departure_date)
            request.place_ids in
        route_eligible request index e e.coords
