-- ===== src/Engine/Schedule.antt =====
-- `schedule_route`, `is_feasible`, `_route_travel_time` and `_route_score` of
-- src/optimizer/solver/engine.py. Times are seconds from midnight.
pub mod Reach
pub mod Timetable
use travel_llm_planner.Common.{
  ℕ, suc, zero, ◌+◌, ◌≤◌, max, leb, String, Bool, false, Option, none, some, List, [], ◌∷◌, length,
  last_or, ◌>>=◌, or_else, Dict, lookup,
}
use travel_llm_planner.Window.{TimeWindow, earliest_start}
use travel_llm_planner.Matrix.{DistanceMatrix, get}

-- The sentinel for an unreachable travel cost.
abbrev pub large : ℕ
large = 1_000_000_000

pub record Stop : Type 0 where
  pub place_id : String
  pub arrival_s : ℕ
  pub departure_s : ℕ
  pub travel_s : ℕ

-- The sum of the legs behind `prev`, or nothing if a leg is missing.
unfoldable pub total_from : DistanceMatrix → String → ℕ → List String → Option ℕ
total_from matrix prev total [] = some total
total_from matrix prev total (node ∷ rest) =
    get matrix prev node >>= λ entry. total_from matrix node (total + entry.duration_s) rest

unfoldable pub route_travel_time : List String → DistanceMatrix → ℕ
unfolding total_from
route_travel_time [] matrix = 0
route_travel_time (node ∷ rest) matrix = or_else (total_from matrix node 0 rest) large

unfoldable pub weight_sum : Dict ℕ → List String → ℕ
weight_sum weights [] = 0
weight_sum weights (node ∷ rest) = or_else (lookup node weights) 1 + weight_sum weights rest

-- Without weights every node counts as 1.
unfoldable pub route_score : List String → Option (Dict ℕ) → ℕ
unfolding weight_sum
route_score route none = length route
route_score route (some weights) = weight_sum weights route

unfoldable pub visit_s : Dict ℕ → String → ℕ
visit_s visit_durations_s node = or_else (lookup node visit_durations_s) 0

-- Nothing where no entry joins two consecutive nodes; the first node is not travelled to.
unfoldable pub travel_from : DistanceMatrix → Option String → String → Option ℕ
travel_from matrix none node = some 0
travel_from matrix (some prev) node = get matrix prev node >>= λ entry. some entry.duration_s

-- `start_s`: nothing where the visit fits into no window of the node.
unfoldable pub begin_in : Option TimeWindow → ℕ → ℕ → ℕ → Option ℕ
begin_in (some tw) day_start_s arrival_s visit = earliest_start tw arrival_s visit
begin_in none day_start_s arrival_s visit = some (max arrival_s day_start_s)

unfoldable pub begin_visit : Dict TimeWindow → Dict ℕ → ℕ → String → ℕ → Option ℕ
begin_visit time_windows visit_durations_s day_start_s node arrival_s =
    begin_in (lookup node time_windows) day_start_s arrival_s (visit_s visit_durations_s node)

module _ (matrix : DistanceMatrix) (time_windows : Dict TimeWindow) (visit_durations_s : Dict ℕ)
    (day_start_s : ℕ) where
  -- The loop, from the node before and the current time. Nothing stands for `return []`.
  unfoldable pub schedule_from : Option String → ℕ → List String → Option (List Stop)
  schedule_from prev current_s [] = some []
  schedule_from prev current_s (node ∷ rest) = travel_from matrix prev node >>= λ travel.
      begin_visit time_windows visit_durations_s day_start_s node (current_s + travel) >>= λ start.
      schedule_from (some node) (start + visit_s visit_durations_s node) rest >>= λ stops. some (
        record {
          place_id = node;
          arrival_s = current_s + travel;
          departure_s = start + visit_s visit_durations_s node;
          travel_s = travel;
        }
        ∷ stops)

  unfoldable pub schedule_route : List String → List Stop
  schedule_route route = or_else (schedule_from none day_start_s route) []

abbrev pub ends_by : ℕ → List Stop → Bool
ends_by day_end_s [] = false
ends_by day_end_s (stop ∷ stops) = leb (last_or stop stops).departure_s day_end_s

unfoldable pub is_feasible : List String → DistanceMatrix → Dict TimeWindow → Dict ℕ → ℕ → ℕ → Bool
unfolding schedule_route
is_feasible route matrix time_windows visit_durations_s day_start_s day_end_s =
    ends_by day_end_s (schedule_route matrix time_windows visit_durations_s day_start_s route)
