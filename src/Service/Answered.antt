-- ===== src/Service/Answered.antt =====
-- What `optimize_route` answers.
use travel_llm_planner.Common.{
  ℕ, ◌≤◌, ◌≡◌, refl, ap, ◌⊎◌, inl, inr, Option, none, some, or_else, String, List, [], ◌∷◌, arith,
  Option-cases, Dict, Perm,
}
use travel_llm_planner.Common.Counting.{occurrences}
use travel_llm_planner.Common.Raising.{Raising, raise, ok}
use travel_llm_planner.Clock.{resolve_day_bound_s}
use travel_llm_planner.Matrix.{TransportMode}
use travel_llm_planner.Places.{PlaceDoc, doc_map}
use travel_llm_planner.Service.{Failure, OptimizeRequest, OptimizeResponse}
use travel_llm_planner.Service.Eligible.{Coord, Eligible}
use travel_llm_planner.Service.Route.{
  MatrixAnswer, with_answer, route_eligible, optimize_route, anchor_at, id_of, weekday_of,
  departure_moment, known_status, node_ids, no_totals, response_of, start_anchor_id, end_anchor_id,
}
use travel_llm_planner.Service.Filtered.{eligible-occurrences}
use travel_llm_planner.Service.Stops.{sum_of}
use travel_llm_planner.Service.Ends.{opens, closes, e, IsPlaceList, IsAnchorOf}
use travel_llm_planner.Service.Assembled.{IsAnswer, solve_route-IsAnswer}

module _ (walk : List String → List String) (walks : (s : List String) → Perm (walk s) s)
    (fetch_places_by_ids : List String → List PlaceDoc)
    (get_matrix : List Coord
      → TransportMode
      → Option ℕ
      → Option Coord
      → Option Coord
      → MatrixAnswer)
    (now : ℕ) where
  abbrev optimized : OptimizeRequest → Option (List PlaceDoc) → Raising Failure OptimizeResponse
  optimized = optimize_route walk fetch_places_by_ids get_matrix now

  -- Some call of `get_matrix` gave no matrix.
  pub record NoMatrix : Type 0 where
    pub coords : List Coord
    pub mode : TransportMode
    pub moment : Option ℕ
    pub start_anchor : Option Coord
    pub end_anchor : Option Coord
    pub nothing : (get_matrix coords mode moment start_anchor end_anchor).matrix ≡ none

  -- An answer, or the error of a matrix that is not there.
  abbrev Answers : List String → Raising Failure OptimizeResponse → Type 0
  Answers ids result =
      ((response : OptimizeResponse) × (result ≡ ok response) × IsAnswer ids response)
      ⊎ (status : String) × (error : Option String) × (result
          ≡ raise (Failure.matrix_unavailable status error))
        × NoMatrix

  anchor_at-IsAnchorOf :
      (id : String) (lat lng : Option ℕ) → IsAnchorOf id (id_of (anchor_at id lat lng))
  unfolding anchor_at
  anchor_at-IsAnchorOf id (some lat) (some lng) = inr refl
  anchor_at-IsAnchorOf id (some lat) none = inl refl
  anchor_at-IsAnchorOf id none lng = inl refl

  module _ (request : OptimizeRequest) (docs : Dict PlaceDoc) (weekday : Option ℕ)
      (places : IsPlaceList request.place_ids) where
    abbrev kept : Eligible
    kept = e walk walks request docs weekday

    route_eligible-Answers :
        (cs : List Coord)
        → kept.coords ≡ cs
        → opens walk walks request docs weekday ≤ closes walk walks request docs weekday
        → Answers request.place_ids
            (route_eligible walk fetch_places_by_ids get_matrix now request docs kept cs)
    unfolding route_eligible with_answer sum_of occurrences
    route_eligible-Answers [] none_kept day = inl (
      response_of request.transport_mode kept.skipped no_totals,
      refl,
      record {
        every_place = λ x.
            let o =
              eligible-occurrences docs (opens walk walks request docs weekday)
                (closes walk walks request docs weekday) weekday x request.place_ids in
            let n = ap (λ cs. occurrences x (node_ids cs)) none_kept in omega arith;
        visits = refl;
        waits = refl;
        travel = refl;
      },
    )
    route_eligible-Answers (c ∷ cs) some_kept day =
        let start = anchor_at start_anchor_id request.start_lat request.start_lng in
        let end = anchor_at end_anchor_id request.end_lat request.end_lng in
        let moment =
          departure_moment now (opens walk walks request docs weekday) request.departure_date in
        let answer = get_matrix (c ∷ cs) request.transport_mode moment start end in
        elim (Option-cases answer.matrix) [
          | inl nothing ↦ inr (
            known_status answer.status,
            answer.error,
            rw (nothing, with_answer) refl,
            record {
              coords = c ∷ cs;
              mode = request.transport_mode;
              moment = moment;
              start_anchor = start;
              end_anchor = end;
              nothing = nothing;
            },
          )
          | inr (matrix, found) ↦
              let (response, done, fine) =
                solve_route-IsAnswer walk walks request docs weekday (id_of start) (id_of end)
                  matrix places day
                  (anchor_at-IsAnchorOf start_anchor_id request.start_lat request.start_lng)
                  (anchor_at-IsAnchorOf end_anchor_id request.end_lat request.end_lng) in
              inl (response, rw (found, with_answer) done, fine)
        ]

  -- For a request of at most 50 different places, none named like an anchor, whose day does not end
  -- before it starts, `optimize_route` answers, or ends in the error of a travel-time matrix that
  -- `get_matrix` did not give. In the answer every place of the request is a step or a skipped place,
  -- exactly once, the visit and waiting totals are the sums over the steps, and the total travel time
  -- is the sum of the legs to the steps and of the leg to the end. It is assumed that Python walks
  -- each set over its members.
  pub optimize_route-Answers :
      (request : OptimizeRequest) (docs : Option (List PlaceDoc))
      → IsPlaceList request.place_ids
      → resolve_day_bound_s request.day_start_hour request.day_start_time
        ≤ resolve_day_bound_s request.day_end_hour request.day_end_time
      → Answers request.place_ids (optimized request docs)
  unfolding optimize_route
  optimize_route-Answers request docs places day =
      route_eligible-Answers request
        (doc_map (or_else docs (fetch_places_by_ids request.place_ids)) [])
        (weekday_of request.departure_date) places _ refl day
