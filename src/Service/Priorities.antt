-- ===== src/Service/Priorities.antt =====
-- `_solve_with_priorities` of src/optimizer/solver/service.py: the route is solved for ever smaller
-- sets of places until no must-see place is left out. `walk` is as in Engine/Nearest.antt.
use travel_llm_planner.Common.{
  ℕ, ◌+◌, ltb, ◌==◌, same, not, if◌then◌else◌, String, Bool, false, ◌||◌, Option, none, some,
  or_else, List, [], ◌∷◌, length, Dict, lookup,
}
use travel_llm_planner.Window.{TimeWindow}
use travel_llm_planner.Matrix.{DistanceMatrix}
use travel_llm_planner.Engine.Nearest.{nn_from_start, nearest_neighbor, missing}

-- `_PRIORITY_WEIGHTS.get(priority, 1_000)`
unfoldable pub weight_of : String → ℕ
weight_of priority =
    if same priority "must_see" then 1_000_000 else if same priority "optional" then 1 else 1_000

-- `priorities.get(n, "normal")`
abbrev pub priority_in : Dict String → String → String
priority_in priorities n = or_else (lookup n priorities) "normal"

abbrev pub is_must_see : Dict String → String → Bool
is_must_see priorities n = same (priority_in priorities n) "must_see"

abbrev pub is_not_optional : Dict String → String → Bool
is_not_optional priorities n = not (same (priority_in priorities n) "optional")

-- `{n: _PRIORITY_WEIGHTS.get(...) for n in node_ids}`. The weight depends on the key alone, so that
-- it does not matter which of two equal keys is found.
unfoldable pub weights_of : Dict String → List String → Dict ℕ
unfolding weight_of
weights_of priorities [] = []
weights_of priorities (n ∷ ns) =
    (n, weight_of (priority_in priorities n)) ∷ weights_of priorities ns

-- `[n for n in node_ids if test(n)]`
unfoldable pub select : (String → Bool) → List String → List String
select test [] = []
select test (n ∷ ns) = let rest = select test ns in if test n then n ∷ rest else rest

-- `tiers`
unfoldable pub tiers : Dict String → List String → List (List String)
unfolding select
tiers priorities node_ids =
    node_ids
    ∷ select (is_not_optional priorities) node_ids
    ∷ select (is_must_see priorities) node_ids
    ∷ []

-- `sum(weights.get(n, 0) for n in route)`
unfoldable pub total_weight : Dict ℕ → List String → ℕ
total_weight weights [] = 0
total_weight weights (n ∷ ns) = or_else (lookup n weights) 0 + total_weight weights ns

-- `any(... == "must_see" for n in solver_skipped)`
unfoldable pub any_must_see : Dict String → List String → Bool
any_must_see priorities [] = false
any_must_see priorities (n ∷ ns) = is_must_see priorities n || any_must_see priorities ns

-- `best` with `best_score`
pub record Solved : Type 0 where
  pub route : List String
  pub solver_skipped : List String
  pub candidates : List String
  pub score : ℕ

-- `score > best_score`, where `best_score` is -1 before the first attempt.
unfoldable pub keep_better : Option Solved → Solved → Solved
keep_better none new = new
keep_better (some best) new = if ltb best.score new.score then new else best

-- `prev_size is not None and len(tier) == prev_size`
abbrev pub removes_nothing : Option ℕ → ℕ → Bool
removes_nothing none size = false
removes_nothing (some previous) size = size == previous

module _ (solve : List String → List String × List String) (priorities : Dict String)
    (weights : Dict ℕ) where
  unfoldable pub attempt : List String → Solved
  unfolding total_weight
  attempt tier =
      let result = solve tier in
      record {
        route = result.0;
        solver_skipped = result.1;
        candidates = tier;
        score = total_weight weights result.0;
      }

  -- The loop over the tiers: `continue` where a tier removes nothing, `break` where no must-see place
  -- is left out.
  unfoldable pub try_tiers : Option ℕ → Option Solved → List (List String) → Option Solved
  unfolding attempt keep_better any_must_see
  try_tiers prev_size best [] = best
  try_tiers prev_size best (tier ∷ rest) =
      let again = try_tiers prev_size best rest in
      let better = keep_better best (attempt tier) in
      let go_on = try_tiers (some (length tier)) (some better) rest in
      if removes_nothing prev_size (length tier)
      then again
      else if any_must_see priorities (attempt tier).solver_skipped
      then go_on
      else some better

module _ (walk : List String → List String) (matrix : DistanceMatrix)
    (time_windows : Dict TimeWindow) (visit_durations_s : Dict ℕ) (day_start_s day_end_s : ℕ)
    (start_anchor end_anchor : Option String) where
  -- One attempt: from the start anchor, or from the best of all starts.
  unfoldable pub solve_tier : Dict ℕ → List String → List String × List String
  solve_tier weights tier = elim start_anchor [
    | none ↦
        nearest_neighbor walk matrix time_windows visit_durations_s day_start_s day_end_s end_anchor
          (some weights) tier
    | some anchor ↦
        nn_from_start walk matrix time_windows visit_durations_s day_start_s day_end_s end_anchor
          anchor tier
  ]

  -- The route, `solver_skipped` and `candidates`; nothing where `assert best is not None` fails.
  unfoldable pub solve_with_priorities : List String → Dict String → Option Solved
  unfolding weights_of tiers try_tiers solve_tier
  solve_with_priorities node_ids priorities =
      let weights = weights_of priorities node_ids in
      try_tiers (solve_tier weights) priorities weights none none (tiers priorities node_ids)

-- `dropped`
unfoldable pub dropped_of : List String → Solved → List String
dropped_of node_ids best = missing node_ids best.candidates
