-- ===== src/MultiDay/Planned/Trips.antt =====
-- A trip's plan has the places of the request.
use travel_llm_planner.Common.{
  ℕ, suc, ◌≡◌, refl, sym, ap, ◌∙◌, subst, inl, true, Option, none, some, String, List, [], ◌∷◌,
  ◌++◌, arith, Dict, length, Perm, All, &&-eq-true,
}
use travel_llm_planner.Common.Counting.{occurrences, SameItems, occurrences-append}
use travel_llm_planner.Common.Raising.{ok, ◌>>=◌}
use travel_llm_planner.Matrix.{TransportMode}
use travel_llm_planner.Places.{doc_map, PlaceDoc, skipped_ids}
use travel_llm_planner.Planner.{
  DayConfig, MultiDayRequest, both_or_neither, every, validate_request, validate_day, place_ids,
}
use travel_llm_planner.Service.Eligible.{Coord}
use travel_llm_planner.Service.Route.{MatrixAnswer}
use travel_llm_planner.Service.Ends.{IsPlaceList}
use travel_llm_planner.MultiDay.{TransitionDayContext}
use travel_llm_planner.MultiDay.Partition.{DayBuckets}
use travel_llm_planner.MultiDay.Partition.Accounted.{ids_of}
use travel_llm_planner.MultiDay.Sides.{IsBound, IsDay}
use travel_llm_planner.MultiDay.Plans.{DayPlan}
use travel_llm_planner.MultiDay.Trip.{plan_day}
use travel_llm_planner.Common.Counting.{occurrences-append}
use travel_llm_planner.MultiDay.Partition.{Partition, configs}
use travel_llm_planner.MultiDay.Partition.Accounted.{placed_ids}
use travel_llm_planner.MultiDay.Partition.Homes.{AllHomes, IsSortedOut, partition_places-AllHomes}
use travel_llm_planner.MultiDay.Partition.Whole.{partition_places-SameItems}
use travel_llm_planner.MultiDay.Plans.{MultiDayResponse}
use travel_llm_planner.MultiDay.Trip.{plan_days, optimize_trip}
use travel_llm_planner.MultiDay.Planned.Requests.{validate_request-RequestFacts}
use travel_llm_planner.MultiDay.Planned.Contexts.{ContextFits, days_with_contexts_total}
use travel_llm_planner.MultiDay.Planned.DayPlans.{
  build_day_plan-Comes, build_transition_day_plan-Comes,
}
use travel_llm_planner.Service.Counts.{are_unique_ids-once}
use travel_llm_planner.MultiDay.Planned.{
  plan_ids, IsPlaceList-append, IsPlaceList-SameItems, Comes, >>=-Comes, Comes-map,
}

abbrev pub planned_ids : List DayPlan → List String
planned_ids [] = []
planned_ids (plan ∷ plans) = plan_ids plan ++ planned_ids plans

-- An ordinary day has its places in the bucket.
bucket_only :
    (day : DayBuckets) (x : String)
    → IsSortedOut none day
    → occurrences x day.bucket ≡ occurrences x (ids_of day)
unfolding occurrences
bucket_only day x (no_pre, no_post, no_skipped) =
    let j =
      occurrences-append x (day.bucket ++ day.pre ++ day.post)
        (skipped_ids day.pre_solver_skipped) in
    let k = occurrences-append x (day.bucket ++ day.pre) day.post in
    let l = occurrences-append x day.bucket day.pre in
    let a : occurrences x day.pre ≡ 0 = ap (occurrences x) no_pre in
    let b : occurrences x day.post ≡ 0 = ap (occurrences x) no_post in
    let c : occurrences x (skipped_ids day.pre_solver_skipped) ≡ 0 =
      ap (λ s. occurrences x (skipped_ids s)) no_skipped in
    omega arith

-- What the days of a valid request have.
record IsPlanned (planned : DayConfig × Option TransitionDayContext) : Type 0 where
  is_day : IsDay planned.0
  fits : ContextFits planned.0 planned.1

All-IsPlanned :
    (days : List (DayConfig × Option TransitionDayContext))
    → every validate_day (configs days) ≡ true
    → All
        (λ (cfg : DayConfig). IsBound cfg.day_start_time × IsBound cfg.day_end_time)
        (configs days)
    → All (λ (d : DayConfig × Option TransitionDayContext). ContextFits d.0 d.1) days
    → All IsPlanned days
All-IsPlanned [] valid times fits = tt
All-IsPlanned (d ∷ days) valid ((starts, ends), times) (fit, fits) =
    let (now, later) = &&-eq-true (validate_day d.0) _ valid in
    (
      record { is_day = record { valid = now; starts = starts; ends = ends }; fits = fit },
      All-IsPlanned days later times fits,
    )

length-configs :
    (days : List (DayConfig × Option TransitionDayContext)) → length (configs days) ≡ length days
length-configs [] = refl
length-configs (d ∷ days) = ap suc (length-configs days)

abbrev response_with : MultiDayRequest → Partition → List DayPlan → MultiDayResponse
response_with request partition plans = record {
  days = plans;
  transport_mode = request.transport_mode;
  unassigned = partition.unassigned;
}

-- Every day of the request has a plan, and every place stands exactly once: on a route of a day,
-- among the skipped places of a day or among the unassigned ones.
pub record IsTripAnswer (request : MultiDayRequest) (response : MultiDayResponse) : Type 0 where
  pub size : length response.days ≡ length request.days
  pub every_place :
      SameItems (planned_ids response.days ++ skipped_ids response.unassigned) (place_ids request)

module _ (walk : List String → List String) (walks : (s : List String) → Perm (walk s) s)
    (fetch_places_by_ids : List String → List PlaceDoc)
    (get_matrix : ℕ
      → List Coord
      → TransportMode
      → Option ℕ
      → Option Coord
      → Option Coord
      → MatrixAnswer)
    (now : ℕ → ℕ) where
  module _ (request : MultiDayRequest) (docs : Dict PlaceDoc)
      (start : both_or_neither request.start_lat request.start_lng ≡ true)
      (finish : both_or_neither request.end_lat request.end_lng ≡ true) where
    plan_day-Comes :
        (day_idx : ℕ) (ctx : Option TransitionDayContext) (day : DayBuckets)
        → IsDay day.config
        → ContextFits day.config ctx
        → IsSortedOut ctx day
        → IsPlaceList (ids_of day)
        → Comes walk walks fetch_places_by_ids get_matrix now
            (λ (plan : DayPlan). SameItems (plan_ids plan) (ids_of day))
            (plan_day walk fetch_places_by_ids get_matrix now request docs day_idx ctx day)
    unfolding plan_day
    plan_day-Comes day_idx (some ctx) day is_day within no_bucket places =
        build_transition_day_plan-Comes walk walks fetch_places_by_ids get_matrix now request docs
          day_idx ctx day is_day within no_bucket places
    plan_day-Comes day_idx none day is_day within sorted_out places =
        let same_ids = λ (x : String). bucket_only day x sorted_out in
        Comes-map walk walks fetch_places_by_ids get_matrix now _ _ _
          (build_day_plan-Comes walk walks fetch_places_by_ids get_matrix now request docs day_idx
            day day.bucket is_day start finish (IsPlaceList-SameItems _ _ same_ids places))
          (λ plan all x. all x ∙ same_ids x)

    -- As many plans as days, with the places of the days.
    abbrev PlansOf : List DayBuckets → List DayPlan → Type 0
    PlansOf days plans =
        (length plans ≡ length days) × SameItems (planned_ids plans) (placed_ids days)

    plan_days-Comes :
        (ps : List (DayConfig × Option TransitionDayContext)) (day_idx : ℕ) (days : List DayBuckets)
        → All IsPlanned ps
        → AllHomes ps days
        → IsPlaceList (placed_ids days)
        → Comes walk walks fetch_places_by_ids get_matrix now
            (PlansOf days)
            (plan_days walk fetch_places_by_ids get_matrix now request docs day_idx days)
    unfolding plan_days
    plan_days-Comes [] day_idx [] planned homes places = inl ([], refl, (refl, λ x. refl))
    plan_days-Comes [] day_idx (d ∷ ds) planned homes places = absurd homes
    plan_days-Comes (p ∷ ps) day_idx [] planned homes places = absurd homes
    plan_days-Comes (p ∷ ps) day_idx (day ∷ days) (is_planned, planned) (home, homes) places =
        let (here, later) = IsPlaceList-append (ids_of day) (placed_ids days) places in
        >>=-Comes walk walks fetch_places_by_ids get_matrix now
          (λ (plan : DayPlan). SameItems (plan_ids plan) (ids_of day)) (PlansOf (day ∷ days))
          (plan_day walk fetch_places_by_ids get_matrix now request docs day_idx day.context day)
          (λ plan.
            plan_days walk fetch_places_by_ids get_matrix now request docs (suc day_idx) days
            >>= λ rest. ok (plan ∷ rest))
          (plan_day-Comes day_idx day.context day
            (subst IsDay (sym home.same_config) is_planned.is_day)
            (rw (home.same_config, home.same_context) is_planned.fits)
            (subst (λ c. IsSortedOut c day) (sym home.same_context) home.sorted_out) here)
          (λ plan all.
            >>=-Comes walk walks fetch_places_by_ids get_matrix now (PlansOf days)
              (PlansOf (day ∷ days))
              (plan_days walk fetch_places_by_ids get_matrix now request docs (suc day_idx) days)
              (λ rest. ok (plan ∷ rest)) (plan_days-Comes ps (suc day_idx) days planned homes later)
              (λ rest (size, rest_all). inl (
                plan ∷ rest,
                refl,
                (
                  ap suc size,
                  λ x.
                      let a = occurrences-append x (plan_ids plan) (planned_ids rest) in
                      let b = occurrences-append x (ids_of day) (placed_ids days) in
                      let c = all x in let d = rest_all x in omega arith,
                ),
              )))

  -- For a request that its validators accept, with times within the day and no place named like an
  -- anchor, `optimize_trip` answers, or ends in the error of a travel-time matrix that `get_matrix`
  -- did not give. In the answer each day has a plan, and every place of the request is on a route, a
  -- skipped place of a day or an unassigned place, exactly once. It is assumed that Python walks each
  -- set over its members.
  pub optimize_trip-Answers :
      (haversine_km : ℕ → ℕ → ℕ → ℕ → ℕ) (request : MultiDayRequest)
      → validate_request request ≡ true
      → All
          (λ (cfg : DayConfig). IsBound cfg.day_start_time × IsBound cfg.day_end_time)
          request.days
      → occurrences "__start__" (place_ids request) ≡ 0
      → occurrences "__end__" (place_ids request) ≡ 0
      → Comes walk walks fetch_places_by_ids get_matrix now
          (IsTripAnswer request)
          (optimize_trip walk fetch_places_by_ids get_matrix now haversine_km request)
  unfolding optimize_trip
  optimize_trip-Answers haversine_km request valid times no_start no_end =
      let f = validate_request-RequestFacts request valid in
      let docs = doc_map (fetch_places_by_ids (place_ids request)) [] in
      let (days, done, same_days, fits) =
        days_with_contexts_total request request.days f.transfers in
      let size = sym (length-configs days) ∙ ap length same_days in
      let (partition, parted, kept_size, kept) =
        partition_places-SameItems haversine_km docs days request.places
          (let k = f.some_day in omega arith) (rw size f.indices) in
      let places : IsPlaceList (place_ids request) = record {
        distinct = are_unique_ids-once (place_ids request) f.unique;
        few = f.few;
        no_start = no_start;
        no_end = no_end;
      } in
      let (placed, left) =
        IsPlaceList-append (placed_ids partition.days) (skipped_ids partition.unassigned)
          (IsPlaceList-SameItems _ (place_ids request) kept places) in
      rw (done, parted)
        (>>=-Comes walk walks fetch_places_by_ids get_matrix now
          (PlansOf request docs f.start f.finish partition.days) (IsTripAnswer request)
          (plan_days walk fetch_places_by_ids get_matrix now request docs 0 partition.days)
          (λ plans. ok (response_with request partition plans))
          (plan_days-Comes request docs f.start f.finish days 0 partition.days
            (All-IsPlanned days (rw same_days f.days) (rw same_days times) fits)
            (partition_places-AllHomes haversine_km docs days request.places partition parted)
            placed)
          (λ plans (as_many, all). inl (
            response_with request partition plans,
            refl,
            record {
              size = as_many ∙ kept_size ∙ size;
              every_place = λ x.
                  let a =
                    occurrences-append x (planned_ids plans) (skipped_ids partition.unassigned) in
                  let b =
                    occurrences-append x (placed_ids partition.days)
                      (skipped_ids partition.unassigned) in
                  let c = all x in let d = kept x in omega arith;
            },
          )))
