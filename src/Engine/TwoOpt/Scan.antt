-- ===== src/Engine/TwoOpt/Scan.antt =====
-- What one pass over the pairs of edges finds: an accepted swap, or nothing where there is none.
use travel_llm_planner.Common.{
  ℕ, zero, suc, ◌+◌, ◌-◌, ◌≤◌, ◌<◌, ◌≡◌, subst, String, Bool, true, false, Option, none, some, List,
  Dict, arith, length, range, ◌⊎◌, inl, inr, Bool-cases, Option-cases,
}
use travel_llm_planner.Window.{TimeWindow}
use travel_llm_planner.Matrix.{DistanceMatrix}
use travel_llm_planner.Engine.Schedule.{is_feasible, route_travel_time}
use travel_llm_planner.Engine.TwoOpt.{reversal, accepts, scan_j, scan_i, find_swap}

eq_or_lt : (a b : ℕ) → a ≤ b → (a ≡ b) ⊎ (suc a ≤ b)
eq_or_lt a b h = ground arith

module _ (matrix : DistanceMatrix) (time_windows : Dict TimeWindow) (visit_durations_s : Dict ℕ)
    (day_start_s day_end_s : ℕ) where
  abbrev pub feasible : List String → Bool
  feasible route = is_feasible route matrix time_windows visit_durations_s day_start_s day_end_s

  abbrev pub time : List String → ℕ
  time route = route_travel_time route matrix

  abbrev pub accepted : ℕ → List String → Bool
  accepted = accepts matrix time_windows visit_durations_s day_start_s day_end_s

  -- One swap: a segment that ends before `j_upper` is turned round.
  pub record Swap (j_upper : ℕ) (route shorter : List String) : Type 0 where
    pub i : ℕ
    pub j : ℕ
    pub apart : i + 2 ≤ j
    pub inside : j < j_upper
    pub made : shorter ≡ reversal i j route
    pub passes : accepted (time route) shorter ≡ true

  scan_j-Swap :
      (route shorter : List String) (i lo n j_upper : ℕ)
      → i + 2 ≤ lo
      → n ≤ j_upper - lo
      → scan_j matrix time_windows visit_durations_s day_start_s day_end_s route
          (time route)
          i
          (range lo n)
        ≡ some shorter
      → Swap j_upper route shorter
  unfolding scan_j
  scan_j-Swap route shorter i lo zero j_upper apart fit h = cc
  scan_j-Swap route shorter i lo (suc n) j_upper apart fit h =
      elim (Bool-cases (accepted (time route) (reversal i lo route))) [
        | inl hit ↦ record {
          i = i;
          j = lo;
          apart = apart;
          inside = omega arith;
          made = ground arith;
          passes = ground arith;
        }
        | inr miss ↦
            scan_j-Swap route shorter i (suc lo) n j_upper (omega arith) (omega arith)
              (ground arith)
      ]

  abbrev inner : List String → ℕ → ℕ → Option (List String)
  inner route i j_upper =
      scan_j matrix time_windows visit_durations_s day_start_s day_end_s route (time route) i
        (range (i + 2) (j_upper - (i + 2)))

  scan_i-Swap :
      (route shorter : List String) (lo n j_upper : ℕ)
      → scan_i matrix time_windows visit_durations_s day_start_s day_end_s route
          (time route)
          j_upper
          (range lo n)
        ≡ some shorter
      → Swap j_upper route shorter
  unfolding scan_i
  scan_i-Swap route shorter lo zero j_upper h = cc
  scan_i-Swap route shorter lo (suc n) j_upper h = elim (Option-cases (inner route lo j_upper)) [
    | inl nothing ↦ scan_i-Swap route shorter (suc lo) n j_upper (rw (nothing, scan_i) at h)
    | inr (found, e) ↦
        scan_j-Swap route shorter lo (lo + 2) (j_upper - (lo + 2)) j_upper (omega arith)
          (omega arith) (ground arith)
  ]

  -- No pair of edges up to `j_upper` gives an accepted candidate.
  abbrev pub IsLocalOptimum : ℕ → List String → Type 0
  IsLocalOptimum j_upper route =
      (i j : ℕ)
      → suc i < length route
      → i + 2 ≤ j
      → j < j_upper
      → accepted (time route) (reversal i j route) ≡ false

  scan_j-none :
      (route : List String) (i lo n : ℕ)
      → scan_j matrix time_windows visit_durations_s day_start_s day_end_s route
          (time route)
          i
          (range lo n)
        ≡ none
      → (j : ℕ) → lo ≤ j
      → j < lo + n
      → accepted (time route) (reversal i j route) ≡ false
  unfolding scan_j
  scan_j-none route i lo zero h j from below = absurd (omega arith)
  scan_j-none route i lo (suc n) h j from below =
      elim (Bool-cases (accepted (time route) (reversal i lo route))) [
        | inl hit ↦ absurd (ground arith)
        | inr miss ↦ elim (eq_or_lt lo j from) [
          | inl e ↦ subst (λ k. accepted (time route) (reversal i k route) ≡ false) e miss
          | inr later ↦ scan_j-none route i (suc lo) n (ground arith) j later (omega arith)
        ]
      ]

  scan_i-none :
      (route : List String) (j_upper lo n : ℕ)
      → scan_i matrix time_windows visit_durations_s day_start_s day_end_s route
          (time route)
          j_upper
          (range lo n)
        ≡ none
      → (i j : ℕ) → lo ≤ i
      → i < lo + n
      → i + 2 ≤ j
      → j < j_upper
      → accepted (time route) (reversal i j route) ≡ false
  unfolding scan_i
  scan_i-none route j_upper lo zero h i j from below apart inside = absurd (omega arith)
  scan_i-none route j_upper lo (suc n) h i j from below apart inside =
      elim (Option-cases (inner route lo j_upper)) [
        | inr (found, e) ↦ absurd (ground arith)
        | inl nothing ↦ elim (eq_or_lt lo i from) [
          | inl e ↦
              scan_j-none route i (i + 2) (j_upper - (i + 2))
                (subst (λ k. inner route k j_upper ≡ none) e nothing) j apart (omega arith)
          | inr later ↦
              scan_i-none route j_upper (suc lo) n (ground arith) i j later (omega arith) apart
                inside
        ]
      ]

  pub find_swap-none :
      (j_upper : ℕ) (route : List String)
      → find_swap matrix time_windows visit_durations_s day_start_s day_end_s j_upper route ≡ none
      → IsLocalOptimum j_upper route
  unfolding find_swap
  find_swap-none j_upper route h i j within apart inside =
      scan_i-none route j_upper 0 (length route - 1) h i j (omega arith) (omega arith) apart inside

  pub find_swap-Swap :
      (j_upper : ℕ) (route shorter : List String)
      → find_swap matrix time_windows visit_durations_s day_start_s day_end_s j_upper route
        ≡ some shorter
      → Swap j_upper route shorter
  unfolding find_swap
  find_swap-Swap j_upper route shorter h = scan_i-Swap route shorter 0 (length route - 1) j_upper h
