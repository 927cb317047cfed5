-- ===== src/Service/Assembled.antt =====
-- What `optimize_route` makes of what the solver returns: skipped places, steps and totals.
use travel_llm_planner.Common.{
  All, ℕ, ◌≤◌, ◌≡◌, refl, ◌∙◌, ◌⊎◌, inl, inr, Option, some, String, List, [], ◌++◌, arith,
  Bool-cases, Dict, Perm, Bool, lookup, ◌+◌, true, if◌then◌else◌,
}
use travel_llm_planner.Common.Counting.{occurrences, SameItems, occurrences-append}
use travel_llm_planner.Common.Raising.{ok, for_each}
use travel_llm_planner.Matrix.{DistanceMatrix}
use travel_llm_planner.Places.{skipped_ids, PlaceDoc, SkippedPlace}
use travel_llm_planner.Engine.Schedule.{Stop, is_feasible}
use travel_llm_planner.Engine.Nearest.{contains}
use travel_llm_planner.Service.{OptimizeRequest, OptimizeResponse, RouteStep}
use travel_llm_planner.Service.Eligible.{Eligible}
use travel_llm_planner.Service.Priorities.{Solved, dropped_of, is_must_see, solve_with_priorities}
use travel_llm_planner.Service.Tiers.{ends_of}
use travel_llm_planner.Service.MustSee.{solve_with_priorities-KeepsAll}
use travel_llm_planner.Service.Route.{
  solve_route, Totals, skip_all, record_stop, skip_reason, is_some, no_totals, response_of,
  start_anchor_id, end_anchor_id,
}
use travel_llm_planner.Service.Filtered.{priorities_of_total, skip_all_total, eligible-length}
use travel_llm_planner.Service.Stops.{
  IsTotal, step_ids, skips, for_each-record_stop, sum_of, IsStill, HasRoom,
}
use travel_llm_planner.Service.Scheduled.{stop_ids}
use travel_llm_planner.Service.Final.{stops_of, stop_count, stops_travelled}
use travel_llm_planner.Service.Travel.{StartsAt, solve_with_priorities-StartsAt, anchor_met_once}
use travel_llm_planner.Service.Ends.{
  dropped_of-le, ends-skips, ends-Outside, node_le, node, free_end, stop_node, adds_up, opens,
  closes, e, nodes, IsPlaceList, IsAnchorOf,
}

-- Every place of the request is a step or a skipped place, exactly once, the totals of visits and
-- waiting are the sums over the steps, and the total travel is the sum of the legs to the steps and
-- of the leg to the end.
pub record IsAnswer (ids : List String) (response : OptimizeResponse) : Type 0 where
  pub every_place : SameItems (step_ids response.steps ++ skipped_ids response.skipped) ids
  pub visits :
      response.total_visit_time_min
      ≡ sum_of (λ (s : RouteStep). s.visit_duration_min) response.steps
  pub waits : response.total_wait_min ≡ sum_of (λ (s : RouteStep). s.wait_min) response.steps
  pub travel :
      response.total_travel_time_s
      ≡ sum_of (λ (s : RouteStep). s.travel_from_previous_s) response.steps
        + response.travel_to_end_s

module _ (walk : List String → List String) (walks : (s : List String) → Perm (walk s) s)
    (request : OptimizeRequest) (docs : Dict PlaceDoc) (weekday : Option ℕ) where
  abbrev day_opens : ℕ
  day_opens = opens walk walks request docs weekday

  abbrev day_closes : ℕ
  day_closes = closes walk walks request docs weekday

  abbrev eligible_places : Eligible
  eligible_places = e walk walks request docs weekday

  abbrev node_list : List String
  node_list = nodes walk walks request docs weekday

  module _ (start_id end_id : Option String) (matrix : DistanceMatrix)
      (places : IsPlaceList request.place_ids) (day : day_opens ≤ day_closes)
      (is_start : IsAnchorOf start_anchor_id start_id)
      (is_end : IsAnchorOf end_anchor_id end_id) where
    abbrev anchor_list : List String
    anchor_list = ends_of start_id end_id

    abbrev is_skipped : String → Bool
    is_skipped x = skips start_id end_id docs eligible_places x

    outside : (x : String) → 1 ≤ occurrences x anchor_list → occurrences x request.place_ids ≡ 0
    outside = ends-Outside start_id end_id request.place_ids is_start is_end places

    anchors_once : (x : String) → occurrences x anchor_list ≤ 1
    anchors_once x =
        let k = ends-skips start_id end_id is_start is_end docs eligible_places x in
        elim (Bool-cases (is_skipped x)) [
          | inl out ↦ let q = rw out at k in omega arith
          | inr stays ↦ let q = rw stays at k in omega arith
        ]

    -- Nodes and anchors are accounted for by what the solver returns.
    abbrev AccountsFor : Solved → Type 0
    AccountsFor best =
        (best.route ≡ []) × SameItems (best.solver_skipped ++ dropped_of node_list best) node_list
        ⊎ SameItems (best.route ++ best.solver_skipped ++ dropped_of node_list best)
            (node_list ++ anchor_list)

    solver_keeps :
        (priorities : Dict String)
        → ((n : String) → is_must_see priorities n ≡ true → contains node_list n ≡ true)
        → (best : Solved) × (solve_with_priorities walk matrix eligible_places.time_windows
              eligible_places.visit_durations_s day_opens day_closes start_id end_id node_list
              priorities
            ≡ some best)
          × AccountsFor best
          × ((best.route ≡ [])
              ⊎ (is_feasible best.route matrix eligible_places.time_windows
                    eligible_places.visit_durations_s day_opens day_closes
                  ≡ true))
          × ((x : String) → occurrences x best.solver_skipped ≤ occurrences x node_list)
          × StartsAt start_id best.route
    solver_keeps priorities known =
        let (best, solved, (accounts, usable, left_le), _) =
          solve_with_priorities-KeepsAll walk matrix eligible_places.time_windows
            eligible_places.visit_durations_s day_opens day_closes walks day start_id end_id
            (free_end walk walks request docs weekday end_id is_end places) node_list
            (λ x.
              let l = node_le walk walks request docs weekday x in
              let o = places.distinct x in omega arith)
            (λ x m.
              let l = node_le walk walks request docs weekday x in
              let o = outside x m in omega arith)
            anchors_once priorities known
            (let l = eligible-length docs day_opens day_closes weekday request.place_ids in
              let f = places.few in omega arith) in
        (
          best,
          solved,
          accounts,
          usable,
          left_le,
          solve_with_priorities-StartsAt walk walks matrix eligible_places.time_windows
              eligible_places.visit_durations_s day_opens day_closes day start_id end_id node_list
              priorities (free_end walk walks request docs weekday end_id is_end places) known best
              solved,
        )

    module _ (best : Solved) (accounts : AccountsFor best)
        (usable : (best.route ≡ [])
          ⊎ (is_feasible best.route matrix eligible_places.time_windows
                eligible_places.visit_durations_s day_opens day_closes
              ≡ true))
        (left_le : (x : String) → occurrences x best.solver_skipped ≤ occurrences x node_list)
        (starts : StartsAt start_id best.route) where
      abbrev dropped : List String
      dropped = dropped_of node_list best

      abbrev stops : List Stop
      stops =
          stops_of matrix eligible_places.time_windows eligible_places.visit_durations_s day_opens
            day_closes best.route (is_some end_id) usable

      doc_there :
          (x : String) → 1 ≤ occurrences x node_list → (doc : PlaceDoc) × (lookup x docs ≡ some doc)
      doc_there x m = let n = node walk walks request docs weekday x m in (n.doc, n.found)

      -- Both loops that append to `skipped`.
      reported :
          (with_dropped : List SkippedPlace) × (skip_all docs
              (λ _. "DROPPED_LOW_PRIORITY")
              eligible_places.skipped
              dropped
            ≡ ok with_dropped)
          × (skipped : List SkippedPlace) × (skip_all docs
                (skip_reason matrix best.candidates)
                with_dropped
                best.solver_skipped
              ≡ ok skipped)
          × ((x : String)
              → occurrences x (skipped_ids skipped)
                ≡ occurrences x (skipped_ids eligible_places.skipped)
                  + occurrences x dropped
                  + occurrences x best.solver_skipped)
      reported =
          let (with_dropped, dropped_done, dropped_count) =
            skip_all_total docs (λ _. "DROPPED_LOW_PRIORITY") dropped eligible_places.skipped
              (λ x m. doc_there x (let l = dropped_of-le x node_list best in omega arith)) in
          let (skipped, skipped_done, skipped_count) =
            skip_all_total docs (skip_reason matrix best.candidates) best.solver_skipped
              with_dropped (λ x m. doc_there x (let l = left_le x in omega arith)) in
          (
            with_dropped,
            dropped_done,
            skipped,
            skipped_done,
            λ x. let a = dropped_count x in let b = skipped_count x in omega arith,
          )

      stops_count : (x : String) → occurrences x (stop_ids stops) ≡ occurrences x best.route
      stops_count =
          stop_count matrix eligible_places.time_windows eligible_places.visit_durations_s day_opens
            day_closes best.route (is_some end_id) usable

      travelled_once : All (IsStill start_id) stops × HasRoom end_id 0 stops
      travelled_once =
          stops_travelled matrix eligible_places.time_windows eligible_places.visit_durations_s
            day_opens day_closes best.route (is_some end_id) usable start_id end_id starts
            (λ a m.
              let n = node_le walk walks request docs weekday a in
              let o = outside a m in
              anchor_met_once best.route best.solver_skipped dropped node_list anchor_list a
                (elim accounts [ inl (nil, _) ↦ inl nil | inr all ↦ inr all ]) (omega arith)
                (anchors_once a))

      -- The loop over the schedule.
      visited :
          (totals : Totals) × (for_each
              (record_stop start_id end_id docs eligible_places.visit_durations_s)
              no_totals
              stops
            ≡ ok totals)
          × ((x : String)
              → occurrences x (step_ids totals.steps)
                ≡ (if is_skipped x then 0 else occurrences x best.route))
          × IsTotal totals
      unfolding occurrences sum_of
      visited =
          let (totals, done, steps_count, total) =
            for_each-record_stop start_id end_id docs eligible_places stops no_totals (λ x m stays.
              node walk walks request docs weekday x (
                stop_node walk walks request docs weekday start_id end_id best.route
                  best.solver_skipped dropped x
                  (elim accounts [ inl (nil, _) ↦ inl nil | inr all ↦ inr all ])
                  (let k = ends-skips start_id end_id is_start is_end docs eligible_places x in
                    rw stays at k)
                  (let c = stops_count x in omega arith))) in
          (
            totals,
            done,
            λ x.
                let a = steps_count x in
                let c = stops_count x in
                elim (Bool-cases (is_skipped x)) [
                  | inl out ↦ let q = rw out at a in rw out (omega arith)
                  | inr stays ↦ let q = rw stays at a in rw stays (omega arith)
                ],
            total travelled_once.0 travelled_once.1
                (record { visits = refl; waits = refl; travel = omega arith }),
          )

    pub solve_route-IsAnswer :
        (response : OptimizeResponse) × (solve_route walk request docs eligible_places start_id
            end_id matrix
          ≡ ok response)
        × IsAnswer request.place_ids response
    unfolding solve_route
    solve_route-IsAnswer =
        let (priorities, priorities_done, known) =
          priorities_of_total docs eligible_places.coords
            (λ x m. let n = node walk walks request docs weekday x m in (n.doc, n.found)) in
        let (best, solved, accounts, usable, left_le, starts) = solver_keeps priorities known in
        let (with_dropped, dropped_done, skipped, skipped_done, skipped_count) =
          reported best accounts usable left_le starts in
        let (totals, totals_done, steps_count, sums) =
          visited best accounts usable left_le starts in
        (
          response_of request.transport_mode skipped totals,
          rw (priorities_done, solved, dropped_done, skipped_done, totals_done) refl,
          record {
            every_place = λ x.
                occurrences-append x (step_ids totals.steps) (skipped_ids skipped)
                ∙ adds_up walk walks request docs weekday x (is_skipped x) best.route
                    best.solver_skipped (dropped_of node_list best) anchor_list
                    (occurrences x (step_ids totals.steps)) (occurrences x (skipped_ids skipped))
                    accounts (ends-skips start_id end_id is_start is_end docs eligible_places x)
                    (outside x) (left_le x) (dropped_of-le x node_list best) (steps_count x)
                    (skipped_count x);
            visits = sums.visits;
            waits = sums.waits;
            travel = sums.travel;
          },
        )
