-- ===== src/Engine/TwoOpt/Improvement.antt =====
-- What the 2-opt search keeps, gains and reaches.
use mathlib.Core.List.Perm
use travel_llm_planner.Common.{
  ℕ, zero, suc, ◌+◌, ◌≤◌, ◌<◌, ◌≡◌, refl, ◌∙◌, ap, String, true, none, List, Perm, Dict, arith,
  length, last_or, ◌⊎◌, inl, inr, Option-cases,
}
use travel_llm_planner.Window.{TimeWindow}
use travel_llm_planner.Matrix.{DistanceMatrix}
use travel_llm_planner.Engine.TwoOpt.{accepts, find_swap, improve_loop}
use travel_llm_planner.Engine.TwoOpt.Scan.{
  feasible, time, accepted, Swap, IsLocalOptimum, find_swap-none, find_swap-Swap,
}
use travel_llm_planner.Engine.TwoOpt.Reversal.{
  reversal-perm, first_or, first_or-reversal, perm-length, last_or-reversal,
}

module _ (matrix : DistanceMatrix) (time_windows : Dict TimeWindow) (visit_durations_s : Dict ℕ)
    (day_start_s day_end_s : ℕ) where
  -- The same nodes from the same first node, and if anything changed a shorter feasible route.
  pub record Improved (route final : List String) : Type 0 where
    pub same_nodes : Perm final route
    pub first : (d : String) → first_or d final ≡ first_or d route
    pub better :
        (final ≡ route)
        ⊎ (time matrix time_windows visit_durations_s day_start_s day_end_s final
            < time matrix time_windows visit_durations_s day_start_s day_end_s route)
          × (feasible matrix time_windows visit_durations_s day_start_s day_end_s final ≡ true)

  passes-better :
      (t : ℕ) (shorter : List String)
      → accepted matrix time_windows visit_durations_s day_start_s day_end_s t shorter ≡ true
      → (time matrix time_windows visit_durations_s day_start_s day_end_s shorter < t)
        × (feasible matrix time_windows visit_durations_s day_start_s day_end_s shorter ≡ true)
  unfolding accepts
  passes-better t shorter h = ground arith

  Swap-perm :
      (j_upper : ℕ) (route shorter : List String)
      → Swap matrix time_windows visit_durations_s day_start_s day_end_s j_upper route shorter
      → Perm shorter route
  Swap-perm j_upper route shorter s =
      rw s.made (reversal-perm s.i s.j route (omega (arith, s.apart)))

  Swap-first :
      (j_upper : ℕ) (route shorter : List String)
      → j_upper ≤ length route
      → Swap matrix time_windows visit_durations_s day_start_s day_end_s j_upper route shorter
      → (d : String) → first_or d shorter ≡ first_or d route
  Swap-first j_upper route shorter fit s d =
      rw s.made (first_or-reversal d s.i s.j route (omega (arith, s.inside)))

  module _ (j_upper : ℕ) where
    abbrev pub loop : ℕ → List String → List String
    loop = improve_loop matrix time_windows visit_durations_s day_start_s day_end_s j_upper

    -- Either no swap is found, or the loop goes on from a shorter route.
    loop_cases :
        (left : ℕ) (route : List String)
        → (find_swap matrix time_windows visit_durations_s day_start_s day_end_s j_upper route
              ≡ none)
            × (loop (suc left) route ≡ route)
          ⊎ (shorter : List String) × Swap matrix time_windows visit_durations_s day_start_s
              day_end_s j_upper route shorter
            × (loop (suc left) route ≡ loop left shorter)
    unfolding improve_loop
    loop_cases left route =
        elim (Option-cases
          (find_swap matrix time_windows visit_durations_s day_start_s day_end_s j_upper route)) [
            | inl nothing ↦ inl (nothing, rw (nothing, improve_loop) refl)
            | inr (shorter, found) ↦ inr (
              shorter,
              find_swap-Swap matrix time_windows visit_durations_s day_start_s day_end_s j_upper
                  route shorter found,
              rw (found, improve_loop) refl,
            )
          ]

    pub loop-Improved :
        (left : ℕ) (route : List String) → j_upper ≤ length route → Improved route (loop left route)
    unfolding improve_loop
    loop-Improved zero route fit = record {
      same_nodes = Perm.rfl;
      first = λ d. refl;
      better = inl refl;
    }
    loop-Improved (suc left) route fit = elim (loop_cases left route) [
      | inl (nothing, e) ↦
          rw e (record { same_nodes = Perm.rfl; first = λ d. refl; better = inl refl })
      | inr (shorter, s, e) ↦
          let same = Swap-perm j_upper route shorter s in
          let (less, fine) =
            passes-better (time matrix time_windows visit_durations_s day_start_s day_end_s route)
              shorter s.passes in
          let ih = loop-Improved left shorter (omega (arith, perm-length same)) in
          rw e (record {
            same_nodes = Perm.trans ih.same_nodes same;
            first = λ d. ih.first d ∙ Swap-first j_upper route shorter fit s d;
            better = elim ih.better [
              | inl stays ↦ inr (rw stays (less, fine))
              | inr (shrinks, good) ↦ inr (omega arith, good)
            ];
          })
    ]

    -- A loop that stops short of its iterations has reached a local optimum.
    pub loop-IsLocalOptimum :
        (left : ℕ) (route : List String)
        → (time matrix time_windows visit_durations_s day_start_s day_end_s (loop left route) + left
            ≤ time matrix time_windows visit_durations_s day_start_s day_end_s route)
          ⊎ IsLocalOptimum matrix time_windows visit_durations_s day_start_s day_end_s j_upper
              (loop left route)
    unfolding improve_loop
    loop-IsLocalOptimum zero route = inl (omega arith)
    loop-IsLocalOptimum (suc left) route = elim (loop_cases left route) [
      | inl (nothing, e) ↦ inr (
          rw e (
            find_swap-none matrix time_windows visit_durations_s day_start_s day_end_s j_upper route
              nothing))
      | inr (shorter, s, e) ↦
          let (less, fine) =
            passes-better (time matrix time_windows visit_durations_s day_start_s day_end_s route)
              shorter s.passes in
          elim (loop-IsLocalOptimum left shorter) [
            | inl many ↦ inl (rw e (omega arith))
            | inr optimum ↦ inr (rw e optimum)
          ]
    ]

    pub loop-last :
        (d : String) (left : ℕ) (route : List String)
        → suc j_upper ≤ length route
        → last_or d (loop left route) ≡ last_or d route
    unfolding improve_loop
    loop-last d zero route fit = refl
    loop-last d (suc left) route fit = elim (loop_cases left route) [
      | inl (nothing, e) ↦ ap (last_or d) e
      | inr (shorter, s, e) ↦
          let same = Swap-perm j_upper route shorter s in
          ap (last_or d) e
          ∙ loop-last d left shorter (omega (arith, perm-length same))
          ∙ rw s.made (last_or-reversal d s.i s.j route (omega (arith, s.inside)))
    ]
