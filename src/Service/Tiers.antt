-- ===== src/Service/Tiers.antt =====
-- `solve_tier`: an attempt of either kind accounts for its tier, and is feasible.
use travel_llm_planner.Common.{
  ℕ, ◌≤◌, ◌≡◌, sym, ap, ◌∙◌, ◌⊎◌, inl, inr, true, Option, none, some, String, List, [], ◌∷◌, ◌++◌,
  arith, same_refl, Bool-cases, Dict, Perm,
}
use travel_llm_planner.Common.Counting.{occurrences, occurrences-append}
use travel_llm_planner.Window.{TimeWindow}
use travel_llm_planner.Matrix.{DistanceMatrix}
use travel_llm_planner.Engine.Schedule.{is_feasible}
use travel_llm_planner.Engine.Nearest.{contains, missing, nn_from_start, nearest_neighbor}
use travel_llm_planner.Engine.Nearest.Route.{anchors, IsFreeAnchor, nn_from_start-IsAttempt}
use travel_llm_planner.Engine.Nearest.Winner.{nearest_neighbor-IsUsable}
use travel_llm_planner.Service.Priorities.{solve_tier}
use travel_llm_planner.Service.Counts.{occurrences-missing}
use travel_llm_planner.Service.Accounts.{
  IsDistinct, Outside, Accounts, nn_from_start-Closed, anchored-Accounts, nearest-Accounts,
}

pub missing-le :
    (x : String) (nodes route : List String)
    → occurrences x (missing nodes route) ≤ occurrences x nodes
missing-le x nodes route =
    let e = occurrences-missing x nodes route in
    elim (Bool-cases (contains route x)) [
      | inl hit ↦ let k = rw hit at e in omega arith
      | inr miss ↦ let k = rw miss at e in omega arith
    ]

-- What each place of the request may assume of the anchors and the nodes.
abbrev pub ends_of : Option String → Option String → List String
ends_of start_anchor end_anchor = anchors start_anchor ++ anchors end_anchor

module _ (walk : List String → List String) (matrix : DistanceMatrix)
    (time_windows : Dict TimeWindow) (visit_durations_s : Dict ℕ) (day_start_s day_end_s : ℕ)
    (walks : (s : List String) → Perm (walk s) s) (day : day_start_s ≤ day_end_s) where
  pub solve_tier-Accounts :
      (start_anchor end_anchor : Option String) (weights : Dict ℕ) (tier : List String)
      → IsFreeAnchor time_windows visit_durations_s end_anchor
      → IsDistinct tier
      → Outside (ends_of start_anchor end_anchor) tier
      → Accounts (ends_of start_anchor end_anchor) tier (
          solve_tier walk matrix time_windows visit_durations_s day_start_s day_end_s start_anchor
            end_anchor weights tier)
  unfolding solve_tier occurrences
  solve_tier-Accounts none end_anchor weights tier free distinct outside =
      nearest-Accounts walk matrix time_windows visit_durations_s day_start_s day_end_s end_anchor
        walks day free (some weights) tier distinct outside
  solve_tier-Accounts (some anchor) end_anchor weights tier free distinct outside =
      anchored-Accounts walk matrix time_windows visit_durations_s day_start_s day_end_s end_anchor
        walks day free anchor tier distinct
        (outside anchor (let e = same_refl anchor in rw e (omega arith)))

  anchored-le :
      (end_anchor : Option String) (weights : Dict ℕ) (anchor : String) (tier : List String)
      → IsFreeAnchor time_windows visit_durations_s end_anchor
      → IsDistinct tier
      → IsDistinct (anchor ∷ anchors end_anchor)
      → occurrences anchor tier ≡ 0
      → (x : String)
      → occurrences x
          (nn_from_start walk matrix time_windows visit_durations_s day_start_s day_end_s end_anchor
            anchor tier).1
        ≤ occurrences x tier
  unfolding occurrences
  anchored-le end_anchor weights anchor tier free distinct apart outside x =
      elim (anchored-Accounts walk matrix time_windows visit_durations_s day_start_s day_end_s
        end_anchor walks day free anchor tier distinct outside) [
          | inl (nil, left) ↦ let e = left x in omega arith
          | inr all ↦
              let e = all x in
              let a =
                occurrences-append x
                  (nn_from_start walk matrix time_windows visit_durations_s day_start_s day_end_s
                    end_anchor anchor tier).0
                  (nn_from_start walk matrix time_windows visit_durations_s day_start_s day_end_s
                    end_anchor anchor tier).1 in
              let b = occurrences-append x tier (anchor ∷ anchors end_anchor) in
              let once = apart x in
              elim (nn_from_start-IsAttempt walk matrix time_windows visit_durations_s day_start_s
                day_end_s end_anchor walks day anchor tier free) [
                  | inl (nil, left) ↦ let f = ap (occurrences x) left in omega arith
                  | inr (rest, headed, fine, same_nodes) ↦
                      let h = ap (occurrences x) headed in
                      elim (nn_from_start-Closed walk matrix time_windows visit_durations_s
                        day_start_s day_end_s end_anchor anchor tier) [
                          | inl nil ↦ let bad : anchor ∷ rest ≡ [] = sym headed ∙ nil in cc
                          | inr (front, closed) ↦
                              let c =
                                ap (occurrences x) closed
                                ∙ occurrences-append x front (anchors end_anchor) in
                              omega arith
                        ]
                ]
        ]

  -- No anchor is ever left out.
  pub solve_tier-le :
      (start_anchor end_anchor : Option String) (weights : Dict ℕ) (tier : List String)
      → IsFreeAnchor time_windows visit_durations_s end_anchor
      → IsDistinct tier
      → IsDistinct (ends_of start_anchor end_anchor)
      → Outside (ends_of start_anchor end_anchor) tier
      → (x : String)
      → occurrences x
          (solve_tier walk matrix time_windows visit_durations_s day_start_s day_end_s start_anchor
            end_anchor weights tier).1
        ≤ occurrences x tier
  unfolding solve_tier nearest_neighbor occurrences
  solve_tier-le none end_anchor weights tier free distinct apart outside x = missing-le x tier _
  solve_tier-le (some anchor) end_anchor weights tier free distinct apart outside x =
      anchored-le end_anchor weights anchor tier free distinct apart
        (outside anchor (let e = same_refl anchor in rw e (omega arith))) x

  -- And its route is empty or feasible.
  pub solve_tier-IsUsable :
      (start_anchor end_anchor : Option String) (weights : Dict ℕ) (tier : List String)
      → IsFreeAnchor time_windows visit_durations_s end_anchor
      → ((solve_tier walk matrix time_windows visit_durations_s day_start_s day_end_s start_anchor
            end_anchor weights tier).0
          ≡ [])
        ⊎ (is_feasible
              (solve_tier walk matrix time_windows visit_durations_s day_start_s day_end_s
                start_anchor end_anchor weights tier).0
              matrix
              time_windows
              visit_durations_s
              day_start_s
              day_end_s
            ≡ true)
  unfolding solve_tier
  solve_tier-IsUsable none end_anchor weights tier free =
      nearest_neighbor-IsUsable walk matrix time_windows visit_durations_s day_start_s day_end_s
        end_anchor (some weights) tier walks day free
  solve_tier-IsUsable (some anchor) end_anchor weights tier free =
      elim (nn_from_start-IsAttempt walk matrix time_windows visit_durations_s day_start_s day_end_s
        end_anchor walks day anchor tier free) [
          | inl (e, f) ↦ inl e
          | inr (rest, headed, fine, same_nodes) ↦ inr fine
        ]
