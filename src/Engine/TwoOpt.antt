-- ===== src/Engine/TwoOpt.antt =====
-- `two_opt` of src/optimizer/solver/engine.py.
pub mod Reversal
pub mod Scan
pub mod Improvement
pub mod Result
use travel_llm_planner.Common.{
  ℕ, zero, suc, ◌+◌, ◌-◌, ltb, ◌&&◌, if◌then◌else◌, String, Bool, Option, none, some, List, [], ◌∷◌,
  ◌++◌, length, take, drop, range, reverse, Dict,
}
use travel_llm_planner.Window.{TimeWindow}
use travel_llm_planner.Matrix.{DistanceMatrix}
use travel_llm_planner.Engine.Schedule.{is_feasible, route_travel_time}

-- `route[: i + 1] + list(reversed(route[i + 1 : j + 1])) + route[j + 1 :]`
unfoldable pub reversal : ℕ → ℕ → List String → List String
reversal i j route =
    take (suc i) route
    ++ (reverse (take (suc j - suc i) (drop (suc i) route)) ++ drop (suc j) route)

-- `j_upper`
abbrev pub upper : Bool → List String → ℕ
upper pin_end route = if pin_end then length route - 1 else length route

module _ (matrix : DistanceMatrix) (time_windows : Dict TimeWindow) (visit_durations_s : Dict ℕ)
    (day_start_s day_end_s : ℕ) where
  -- The candidate is strictly shorter, and feasible.
  unfoldable pub accepts : ℕ → List String → Bool
  accepts current_time candidate =
      ltb (route_travel_time candidate matrix) current_time
      && is_feasible candidate matrix time_windows visit_durations_s day_start_s day_end_s

  -- The first `j` whose candidate is accepted.
  unfoldable pub scan_j : List String → ℕ → ℕ → List ℕ → Option (List String)
  scan_j route current_time i [] = none
  scan_j route current_time i (j ∷ js) =
      let rest = scan_j route current_time i js in
      if accepts current_time (reversal i j route) then some (reversal i j route) else rest

  -- The first `i` with such a `j`: both `break`s leave the loops.
  unfoldable pub scan_i : List String → ℕ → ℕ → List ℕ → Option (List String)
  scan_i route current_time j_upper [] = none
  scan_i route current_time j_upper (i ∷ is) =
      let rest = scan_i route current_time j_upper is in
      elim (scan_j route current_time i (range (i + 2) (j_upper - (i + 2)))) [
        | none ↦ rest
        | some candidate ↦ some candidate
      ]

  -- One pass over all pairs of edges.
  unfoldable pub find_swap : ℕ → List String → Option (List String)
  find_swap j_upper route =
      scan_i route (route_travel_time route matrix) j_upper (range 0 (length route - 1))

  -- `while improved and iterations < max_iterations`, by the iterations left.
  unfoldable pub improve_loop : ℕ → ℕ → List String → List String
  improve_loop j_upper zero route = route
  improve_loop j_upper (suc left) route = elim (find_swap j_upper route) [
    | none ↦ route
    | some shorter ↦ improve_loop j_upper left shorter
  ]

  unfoldable pub two_opt : List String → ℕ → Bool → List String
  two_opt route max_iterations pin_end =
      if ltb (length route) 4
      then route
      else improve_loop (upper pin_end route) max_iterations route
