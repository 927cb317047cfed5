-- ===== src/Service/Final.antt =====
-- The route of `optimize_route` after 2-opt, and its stops.
use travel_llm_planner.Common.{
  ℕ, ◌≤◌, ◌≡◌, sym, ap, ◌∙◌, subst, ◌⊎◌, Bool, true, Option, String, List, [], Dict, All, arith,
}
use travel_llm_planner.Common.Counting.{occurrences, occurrences-perm}
use travel_llm_planner.Window.{TimeWindow}
use travel_llm_planner.Matrix.{DistanceMatrix}
use travel_llm_planner.Engine.Schedule.{schedule_route, Stop, is_feasible}
use travel_llm_planner.Engine.TwoOpt.{two_opt}
use travel_llm_planner.Engine.TwoOpt.Improvement.{Improved}
use travel_llm_planner.Engine.TwoOpt.Result.{two_opt-Improved}
use travel_llm_planner.Service.Tiers.{ends_of}
use travel_llm_planner.Service.Ends.{two_opt-usable}
use travel_llm_planner.Service.Stops.{IsStill, HasRoom}
use travel_llm_planner.Service.Scheduled.{stop_ids, schedule_route-ids, schedule_route-IsUnmoved}
use travel_llm_planner.Service.Travel.{StartsAt, StartsAt-two_opt, stops_travel_once}

module _ (matrix : DistanceMatrix) (time_windows : Dict TimeWindow) (visit_durations_s : Dict ℕ)
    (day_start_s day_end_s : ℕ) (route : List String) (pin_end : Bool)
    (usable : (route ≡ [])
      ⊎ (is_feasible route matrix time_windows visit_durations_s day_start_s day_end_s
          ≡ true)) where
  abbrev pub final_route : List String
  final_route =
      two_opt matrix time_windows visit_durations_s day_start_s day_end_s route 100 pin_end

  abbrev pub stops_of : List Stop
  stops_of = schedule_route matrix time_windows visit_durations_s day_start_s final_route

  improvement :
      Improved matrix time_windows visit_durations_s day_start_s day_end_s route final_route
  improvement =
      two_opt-Improved matrix time_windows visit_durations_s day_start_s day_end_s route 100 pin_end

  scheduled : stop_ids stops_of ≡ final_route
  scheduled =
      schedule_route-ids matrix time_windows visit_durations_s day_start_s day_end_s final_route (
        two_opt-usable matrix time_windows visit_durations_s day_start_s day_end_s route 100 pin_end
          usable)

  pub stop_count : (x : String) → occurrences x (stop_ids stops_of) ≡ occurrences x route
  stop_count x = ap (occurrences x) scheduled ∙ occurrences-perm x improvement.same_nodes

  pub stops_travelled :
      (start_id end_id : Option String)
      → StartsAt start_id route
      → ((a : String) → 1 ≤ occurrences a (ends_of start_id end_id) → occurrences a route ≤ 1)
      → All (IsStill start_id) stops_of × HasRoom end_id 0 stops_of
  stops_travelled start_id end_id starts once =
      stops_travel_once start_id end_id stops_of
        (schedule_route-IsUnmoved matrix time_windows visit_durations_s day_start_s final_route)
        (subst (StartsAt start_id) (sym scheduled)
          (StartsAt-two_opt start_id route final_route improvement.first starts))
        (λ a m. let c = stop_count a in let o = once a m in omega arith)
