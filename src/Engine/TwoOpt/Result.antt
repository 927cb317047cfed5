-- ===== src/Engine/TwoOpt/Result.antt =====
-- What `two_opt` returns.
use mathlib.Core.List.Perm
use travel_llm_planner.Common.{
  ℕ, ◌≤◌, ◌≡◌, refl, String, Bool, true, false, List, Dict, arith, length, last_or, inl, inr,
  Bool-cases, ltb,
}
use travel_llm_planner.Window.{TimeWindow}
use travel_llm_planner.Matrix.{DistanceMatrix}
use travel_llm_planner.Engine.TwoOpt.{two_opt, upper}
use travel_llm_planner.Engine.TwoOpt.Improvement.{Improved, loop-Improved, loop-last}

module _ (matrix : DistanceMatrix) (time_windows : Dict TimeWindow) (visit_durations_s : Dict ℕ)
    (day_start_s day_end_s : ℕ) where
  abbrev improved : List String → ℕ → Bool → List String
  improved = two_opt matrix time_windows visit_durations_s day_start_s day_end_s

  upper-le : (pin_end : Bool) (route : List String) → upper pin_end route ≤ length route
  upper-le true route = omega arith
  upper-le false route = omega arith

  -- Whatever the iterations and the pinning, `two_opt` returns the nodes of the route, each as often,
  -- with the same first node; and it returns the route itself or a strictly shorter one that is
  -- feasible.
  pub two_opt-Improved :
      (route : List String) (max_iterations : ℕ) (pin_end : Bool)
      → Improved matrix time_windows visit_durations_s day_start_s day_end_s route
          (improved route max_iterations pin_end)
  unfolding two_opt
  two_opt-Improved route n pin_end = elim (Bool-cases (ltb (length route) 4)) [
    | inl few ↦
        rw (few, two_opt) (record { same_nodes = Perm.rfl; first = λ d. refl; better = inl refl })
    | inr many ↦
        rw (many, two_opt)
          (loop-Improved matrix time_windows visit_durations_s day_start_s day_end_s
            (upper pin_end route) n route (upper-le pin_end route))
  ]

  -- With a pinned end the last node stays last.
  pub two_opt-last :
      (d : String) (route : List String) (max_iterations : ℕ)
      → last_or d (improved route max_iterations true) ≡ last_or d route
  unfolding two_opt
  two_opt-last d route n = elim (Bool-cases (ltb (length route) 4)) [
    | inl few ↦ rw (few, two_opt) refl
    | inr many ↦
        rw (many, two_opt)
          (loop-last matrix time_windows visit_durations_s day_start_s day_end_s (upper true route)
            d n route (ground arith))
  ]
