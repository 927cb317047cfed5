-- ===== src/MultiDay/Trip.antt =====
-- `optimize_trip` of src/optimizer/solver/multi_day_service.py.
-- Each call of `optimize_route` reads the clock and the travel times anew: `now n` and
-- `get_matrix n` are what it meets in the n-th call, of which a day has two at most.
use travel_llm_planner.Common.{
  ℕ, zero, suc, ◌+◌, ◌*◌, if◌then◌else◌, String, Option, none, some, List, [], ◌∷◌, Dict,
}
use travel_llm_planner.Common.Raising.{Raising, ok, ◌>>=◌}
use travel_llm_planner.Matrix.{TransportMode}
use travel_llm_planner.Places.{PlaceDoc, doc_map}
use travel_llm_planner.Accommodations.{DayAccommodationAnchors, resolve_day, is_transition_day}
use travel_llm_planner.Planner.{DayConfig, MultiDayRequest, TransferBlock, place_ids}
use travel_llm_planner.Service.{Failure, OptimizeRequest, OptimizeResponse, optimize_request}
use travel_llm_planner.Service.Eligible.{Coord}
use travel_llm_planner.Service.Route.{MatrixAnswer, optimize_route}
use travel_llm_planner.MultiDay.{
  TransitionDayContext, build_transition_day_context, build_transfer_segment, transfer_on,
}
use travel_llm_planner.MultiDay.Partition.{DayBuckets, partition_places}
use travel_llm_planner.MultiDay.Requests.{build_day_docs, pre_request, post_request, day_request}
use travel_llm_planner.MultiDay.Plans.{
  SegmentKind, DayPlan, MultiDayResponse, segment_from_result, window_skipped, empty_plan,
  single_plan, transition_plan,
}

-- The transfer contexts: a day with a transfer and a change of stays has one.
unfoldable pub context_of :
    Option TransferBlock
    → DayAccommodationAnchors
    → DayConfig
    → Raising Failure (Option TransitionDayContext)
unfolding build_transition_day_context
context_of none anchors cfg = ok none
context_of (some transfer) anchors cfg =
    let built = build_transition_day_context transfer anchors cfg >>= λ ctx. ok (some ctx) in
    if is_transition_day anchors then built else ok none

unfoldable pub days_with_contexts :
    MultiDayRequest
    → List DayConfig
    → Raising Failure (List (DayConfig × Option TransitionDayContext))
unfolding context_of transfer_on
days_with_contexts request [] = ok []
days_with_contexts request (cfg ∷ cfgs) =
    context_of (transfer_on request.transfers cfg.date none)
      (resolve_day request.accommodations cfg.date) cfg
    >>= λ ctx. days_with_contexts request cfgs >>= λ rest. ok ((cfg, ctx) ∷ rest)

module _ (walk : List String → List String) (fetch_places_by_ids : List String → List PlaceDoc)
    (get_matrix : ℕ
      → List Coord
      → TransportMode
      → Option ℕ
      → Option Coord
      → Option Coord
      → MatrixAnswer)
    (now : ℕ → ℕ) where
  -- A request, checked, and solved with the documents given.
  unfoldable pub solve_at : ℕ → OptimizeRequest → List PlaceDoc → Raising Failure OptimizeResponse
  unfolding optimize_request optimize_route
  solve_at n request docs = optimize_request request >>= λ r.
      optimize_route walk fetch_places_by_ids (get_matrix n) (now n) r (some docs)

  -- A side of a transition day: solved where it has places and a budget.
  unfoldable pub solve_side :
      ℕ
      → OptimizeRequest
      → List PlaceDoc
      → ℕ
      → List String
      → Raising Failure (Option OptimizeResponse)
  unfolding solve_at
  solve_side n request docs budget [] = ok none
  solve_side n request docs zero (pid ∷ pids) = ok none
  solve_side n request docs (suc budget) (pid ∷ pids) =
      solve_at n request docs >>= λ result. ok (some result)

  module _ (request : MultiDayRequest) (docs : Dict PlaceDoc) where
    -- `_build_transition_day_plan`
    unfoldable pub build_transition_day_plan :
        ℕ → TransitionDayContext → DayBuckets → Raising Failure DayPlan
    unfolding solve_side pre_request post_request build_day_docs segment_from_result window_skipped
        build_transfer_segment
    build_transition_day_plan day_idx ctx day =
        solve_side (day_idx * 2) (pre_request request day.config ctx day.pre)
          (build_day_docs day.pre docs request.places day_idx) ctx.pre_visit_budget_min day.pre
        >>= λ pre_result.
            solve_side (day_idx * 2 + 1) (post_request request day.config ctx day.post)
              (build_day_docs day.post docs request.places day_idx) ctx.post_visit_budget_min
              day.post
            >>= λ post_result.
                let pre_skipped =
                  window_skipped docs "PRE_TRANSFER_WINDOW_INFEASIBLE" day.pre
                    ctx.pre_visit_budget_min in
                let post_skipped =
                  window_skipped docs "TRANSFER_WINDOW_INFEASIBLE" day.post
                    ctx.post_visit_budget_min in
                ok (
                  transition_plan day_idx day.config (build_transfer_segment ctx)
                    day.pre_solver_skipped
                    (segment_from_result SegmentKind.pre_transfer pre_result pre_skipped)
                    (segment_from_result SegmentKind.post_transfer post_result post_skipped))

    -- A day without a context: not solved when it has no places.
    unfoldable pub build_day_plan : ℕ → DayBuckets → List String → Raising Failure DayPlan
    unfolding solve_at day_request build_day_docs
    build_day_plan day_idx day [] = ok (empty_plan day_idx day.config)
    build_day_plan day_idx day (pid ∷ pids) =
        solve_at (day_idx * 2)
          (day_request request day.config (resolve_day request.accommodations day.config.date)
            (pid ∷ pids))
          (build_day_docs (pid ∷ pids) docs request.places day_idx)
        >>= λ result. ok (single_plan day_idx day.config result)

    -- The body of the loop over the days.
    unfoldable pub plan_day : ℕ → Option TransitionDayContext → DayBuckets → Raising Failure DayPlan
    unfolding build_transition_day_plan build_day_plan
    plan_day day_idx (some ctx) day = build_transition_day_plan day_idx ctx day
    plan_day day_idx none day = build_day_plan day_idx day day.bucket

    unfoldable pub plan_days : ℕ → List DayBuckets → Raising Failure (List DayPlan)
    unfolding plan_day
    plan_days day_idx [] = ok []
    plan_days day_idx (day ∷ days) = plan_day day_idx day.context day >>= λ plan.
        plan_days (suc day_idx) days >>= λ rest. ok (plan ∷ rest)

  unfoldable pub optimize_trip :
      (ℕ → ℕ → ℕ → ℕ → ℕ) → MultiDayRequest → Raising Failure MultiDayResponse
  unfolding doc_map days_with_contexts partition_places plan_days
  optimize_trip haversine_km request =
      let docs = doc_map (fetch_places_by_ids (place_ids request)) [] in
      days_with_contexts request request.days >>= λ days.
      partition_places haversine_km request.places days docs >>= λ partition.
      plan_days request docs 0 partition.days >>= λ plans. ok (record {
        days = plans;
        transport_mode = request.transport_mode;
        unassigned = partition.unassigned;
      })
