-- ===== src/MultiDay/Planned/DayPlans.antt =====
-- A day's plan, of a transition day and of any other, has the places of the day.
use travel_llm_planner.Common.{
  ℕ, zero, suc, ◌+◌, ◌*◌, ◌≡◌, refl, sym, ap, inl, inr, true, Option, none, some, String, List, [],
  ◌∷◌, ◌++◌, arith, Dict, Perm,
}
use travel_llm_planner.Common.Counting.{occurrences, SameItems, occurrences-append}
use travel_llm_planner.Common.Raising.{Raising, ok, ◌>>=◌}
use travel_llm_planner.Matrix.{TransportMode}
use travel_llm_planner.Places.{PlaceDoc, SkippedPlace, skipped_ids}
use travel_llm_planner.Accommodations.{resolve_day}
use travel_llm_planner.Planner.{MultiDayRequest, both_or_neither}
use travel_llm_planner.Service.{Failure, OptimizeResponse}
use travel_llm_planner.Service.Eligible.{Coord}
use travel_llm_planner.Service.Route.{MatrixAnswer}
use travel_llm_planner.Service.Stops.{step_ids}
use travel_llm_planner.Service.Ends.{IsPlaceList}
use travel_llm_planner.Service.Assembled.{IsAnswer}
use travel_llm_planner.MultiDay.{TransitionDayContext, build_transfer_segment}
use travel_llm_planner.MultiDay.Partition.{DayBuckets}
use travel_llm_planner.MultiDay.Partition.Accounted.{ids_of}
use travel_llm_planner.MultiDay.Windows.{IsInside}
use travel_llm_planner.MultiDay.Sides.{
  IsDay, pre_request-accepted, post_request-accepted, day_request-accepted,
}
use travel_llm_planner.MultiDay.Requests.{pre_request, post_request, day_request, build_day_docs}
use travel_llm_planner.MultiDay.Plans.{
  SegmentKind, DayRouteSegment, DayPlan, segment_from_result, window_skipped, empty_plan,
  single_plan, transition_plan,
}
use travel_llm_planner.MultiDay.Trip.{solve_side, build_transition_day_plan, build_day_plan}
use travel_llm_planner.MultiDay.Planned.{
  plan_ids, IsPlaceList-append, Comes, >>=-Comes, SideAnswer, solve_side-Comes, solve_at-Comes,
}

window_skipped_ids :
    (docs : Dict PlaceDoc) (reason : String) (pids : List String)
    → skipped_ids (window_skipped docs reason pids 0) ≡ pids
unfolding window_skipped
window_skipped_ids docs reason [] = refl
window_skipped_ids docs reason (pid ∷ pids) =
    ap (λ (ids : List String). pid ∷ ids) (window_skipped_ids docs reason pids)

abbrev segment_ids : DayRouteSegment → List String
segment_ids s = step_ids s.steps ++ skipped_ids s.skipped

skipped_ids-append :
    (xs ys : List SkippedPlace) → skipped_ids (xs ++ ys) ≡ skipped_ids xs ++ skipped_ids ys
skipped_ids-append [] ys = refl
skipped_ids-append (x ∷ xs) ys =
    ap (λ (ids : List String). x.place_id ∷ ids) (skipped_ids-append xs ys)

-- A transition day adds up.
adds_up :
    (day : DayBuckets) (x : String) (pre post : DayRouteSegment)
    → day.bucket ≡ []
    → occurrences x (segment_ids pre) ≡ occurrences x day.pre
    → occurrences x (segment_ids post) ≡ occurrences x day.post
    → occurrences x (
        step_ids pre.steps
        ++ step_ids post.steps
        ++ skipped_ids (day.pre_solver_skipped ++ pre.skipped ++ post.skipped))
      ≡ occurrences x (ids_of day)
unfolding occurrences
adds_up day x pre post no_bucket same_pre same_post =
    let a =
      occurrences-append x (step_ids pre.steps ++ step_ids post.steps)
        (skipped_ids (day.pre_solver_skipped ++ pre.skipped ++ post.skipped)) in
    let b = occurrences-append x (step_ids pre.steps) (step_ids post.steps) in
    let c =
      ap (occurrences x)
        (skipped_ids-append (day.pre_solver_skipped ++ pre.skipped) post.skipped) in
    let d =
      occurrences-append x (skipped_ids (day.pre_solver_skipped ++ pre.skipped))
        (skipped_ids post.skipped) in
    let f = ap (occurrences x) (skipped_ids-append day.pre_solver_skipped pre.skipped) in
    let g = occurrences-append x (skipped_ids day.pre_solver_skipped) (skipped_ids pre.skipped) in
    let h = occurrences-append x (step_ids pre.steps) (skipped_ids pre.skipped) in
    let i = occurrences-append x (step_ids post.steps) (skipped_ids post.skipped) in
    let j =
      occurrences-append x (day.bucket ++ day.pre ++ day.post)
        (skipped_ids day.pre_solver_skipped) in
    let k = occurrences-append x (day.bucket ++ day.pre) day.post in
    let l = occurrences-append x day.bucket day.pre in
    let empty : occurrences x day.bucket ≡ 0 = ap (occurrences x) no_bucket in omega arith

module _ (walk : List String → List String) (walks : (s : List String) → Perm (walk s) s)
    (fetch_places_by_ids : List String → List PlaceDoc)
    (get_matrix : ℕ
      → List Coord
      → TransportMode
      → Option ℕ
      → Option Coord
      → Option Coord
      → MatrixAnswer)
    (now : ℕ → ℕ) where
  abbrev Side : ℕ → List String → Option OptimizeResponse → Type 0
  Side = SideAnswer walk walks fetch_places_by_ids get_matrix now

  -- A segment has the places of its side, solved or not.
  segment_from_result-ids :
      (kind : SegmentKind) (docs : Dict PlaceDoc) (reason : String) (budget : ℕ)
      (pids : List String) (result : Option OptimizeResponse)
      → Side budget pids result
      → SameItems
          (segment_ids (segment_from_result kind result (window_skipped docs reason pids budget)))
          pids
  unfolding segment_from_result window_skipped
  segment_from_result-ids kind docs reason budget pids (some response) fine x = fine.every_place x
  segment_from_result-ids kind docs reason zero pids none side x =
      ap (occurrences x) (window_skipped_ids docs reason pids)
  segment_from_result-ids kind docs reason (suc budget) pids none (inl nothing) x =
      ap (occurrences x) (sym nothing)
  segment_from_result-ids kind docs reason (suc budget) pids none (inr never) x =
      absurd (omega arith)

  module _ (request : MultiDayRequest) (docs : Dict PlaceDoc) where
    abbrev pub PlansAll : List String → DayPlan → Type 0
    PlansAll ids plan = SameItems (plan_ids plan) ids

    abbrev segment_of :
        SegmentKind → String → ℕ → List String → Option OptimizeResponse → DayRouteSegment
    segment_of kind reason budget pids result =
        segment_from_result kind result (window_skipped docs reason pids budget)

    abbrev plan_of :
        ℕ
        → TransitionDayContext
        → DayBuckets
        → Option OptimizeResponse
        → Option OptimizeResponse
        → DayPlan
    plan_of day_idx ctx day pre_result post_result =
        transition_plan day_idx day.config (build_transfer_segment ctx) day.pre_solver_skipped
          (segment_of SegmentKind.pre_transfer "PRE_TRANSFER_WINDOW_INFEASIBLE"
            ctx.pre_visit_budget_min day.pre pre_result)
          (segment_of SegmentKind.post_transfer "TRANSFER_WINDOW_INFEASIBLE"
            ctx.post_visit_budget_min day.post post_result)

    -- The second half of `_build_transition_day_plan`.
    abbrev after_pre :
        ℕ → TransitionDayContext → DayBuckets → Option OptimizeResponse → Raising Failure DayPlan
    after_pre day_idx ctx day pre_result =
        solve_side walk fetch_places_by_ids get_matrix now (day_idx * 2 + 1)
          (post_request request day.config ctx day.post)
          (build_day_docs day.post docs request.places day_idx) ctx.post_visit_budget_min day.post
        >>= λ post_result. ok (plan_of day_idx ctx day pre_result post_result)

    pub build_transition_day_plan-Comes :
        (day_idx : ℕ) (ctx : TransitionDayContext) (day : DayBuckets)
        → IsDay day.config
        → IsInside day.config ctx
        → day.bucket ≡ []
        → IsPlaceList (ids_of day)
        → Comes walk walks fetch_places_by_ids get_matrix now (PlansAll (ids_of day)) (
            build_transition_day_plan walk fetch_places_by_ids get_matrix now request docs day_idx
              ctx day)
    unfolding build_transition_day_plan segment_from_result window_skipped pre_request post_request
        occurrences
    build_transition_day_plan-Comes day_idx ctx day is_day within no_bucket places =
        let (solved, left) =
          IsPlaceList-append (day.bucket ++ day.pre ++ day.post)
            (skipped_ids day.pre_solver_skipped) places in
        let (front, post) = IsPlaceList-append (day.bucket ++ day.pre) day.post solved in
        let (bucket, pre) = IsPlaceList-append day.bucket day.pre front in
        >>=-Comes walk walks fetch_places_by_ids get_matrix now
          (Side ctx.pre_visit_budget_min day.pre) (PlansAll (ids_of day)) _
          (after_pre day_idx ctx day)
          (solve_side-Comes walk walks fetch_places_by_ids get_matrix now (day_idx * 2)
            (pre_request request day.config ctx day.pre)
            (build_day_docs day.pre docs request.places day_idx) ctx.pre_visit_budget_min day.pre
            refl
            (λ budget some_place.
              pre_request-accepted request day.config is_day ctx within day.pre some_place pre.few
                budget)
            pre)
          (λ pre_result pre_side.
            >>=-Comes walk walks fetch_places_by_ids get_matrix now
              (Side ctx.post_visit_budget_min day.post) (PlansAll (ids_of day)) _
              (λ post_result. ok (plan_of day_idx ctx day pre_result post_result))
              (solve_side-Comes walk walks fetch_places_by_ids get_matrix now (day_idx * 2 + 1)
                (post_request request day.config ctx day.post)
                (build_day_docs day.post docs request.places day_idx) ctx.post_visit_budget_min
                day.post refl
                (λ budget some_place.
                  post_request-accepted request day.config is_day ctx within day.post some_place
                    post.few budget)
                post)
              (λ post_result post_side. inl (
                plan_of day_idx ctx day pre_result post_result,
                refl,
                λ x.
                    adds_up day x
                      (segment_of SegmentKind.pre_transfer "PRE_TRANSFER_WINDOW_INFEASIBLE"
                        ctx.pre_visit_budget_min day.pre pre_result)
                      (segment_of SegmentKind.post_transfer "TRANSFER_WINDOW_INFEASIBLE"
                        ctx.post_visit_budget_min day.post post_result)
                      no_bucket
                      (segment_from_result-ids SegmentKind.pre_transfer docs _ _ day.pre pre_result
                        pre_side x)
                      (segment_from_result-ids SegmentKind.post_transfer docs _ _ day.post
                        post_result post_side x),
              )))

    pub build_day_plan-Comes :
        (day_idx : ℕ) (day : DayBuckets) (pids : List String)
        → IsDay day.config
        → both_or_neither request.start_lat request.start_lng ≡ true
        → both_or_neither request.end_lat request.end_lng ≡ true
        → IsPlaceList pids
        → Comes walk walks fetch_places_by_ids get_matrix now
            (PlansAll pids)
            (build_day_plan walk fetch_places_by_ids get_matrix now request docs day_idx day pids)
    unfolding build_day_plan day_request
    build_day_plan-Comes day_idx day [] is_day start finish places =
        inl (empty_plan day_idx day.config, refl, λ x. refl)
    build_day_plan-Comes day_idx day (pid ∷ pids) is_day start finish places =
        >>=-Comes walk walks fetch_places_by_ids get_matrix now (IsAnswer (pid ∷ pids))
          (PlansAll (pid ∷ pids)) _ (λ result. ok (single_plan day_idx day.config result))
          (solve_at-Comes walk walks fetch_places_by_ids get_matrix now (day_idx * 2)
            (day_request request day.config (resolve_day request.accommodations day.config.date)
              (pid ∷ pids))
            (build_day_docs (pid ∷ pids) docs request.places day_idx)
            (day_request-accepted request day.config is_day _ (pid ∷ pids) (omega arith) places.few
              start finish)
            places)
          (λ response fine. inl (single_plan day_idx day.config response, refl, fine.every_place))
