-- ===== src/Engine/Nearest/Choice.antt =====
-- What the inner loop of `nn_from_start` guarantees of the candidate that it picks.
use mathlib.Core.List.{Mem, mem-cons_self, mem-cons_of_mem}
use travel_llm_planner.Common.{
  ℕ, ◌≡◌, subst, String, Option, some, List, [], ◌∷◌, ◌⊎◌, inl, inr, Dict, arith,
}
use travel_llm_planner.Window.{TimeWindow}
use travel_llm_planner.Matrix.{DistanceMatrix}
use travel_llm_planner.Engine.Schedule.{travel_from}
use travel_llm_planner.Engine.Nearest.{Best, consider, choose, no_best}

module _ (matrix : DistanceMatrix) (time_windows : Dict TimeWindow) (visit_durations_s : Dict ℕ)
    (day_start_s day_end_s : ℕ) (end_anchor : Option String) where
  abbrev considered : String → ℕ → Best → String → Best
  considered = consider matrix time_windows visit_durations_s day_start_s day_end_s end_anchor

  abbrev chosen : String → ℕ → Best → List String → Best
  chosen = choose matrix time_windows visit_durations_s day_start_s day_end_s end_anchor

  -- The picked node is one of `seen`, and its travel time is that of the leg from `last`.
  abbrev pub IsLeg : String → List String → Best → Type 0
  IsLeg last seen best =
      (node : String)
      → best.node ≡ some node
      → Mem node seen × (travel_from matrix (some last) node ≡ some best.travel_s)

  -- Either the candidate is passed over, or it is taken with the travel time of its leg.
  consider_cases :
      (last : String) (now : ℕ) (best : Best) (c : String)
      → (considered last now best c ≡ best)
        ⊎ ((considered last now best c).node ≡ some c)
          × (travel_from matrix (some last) c ≡ some (considered last now best c).travel_s)
  unfolding consider travel_from
  consider_cases last now best c = ground arith

  choose-IsLeg :
      (last : String) (now : ℕ) (best : Best) (cs all : List String)
      → ((c : String) → Mem c cs → Mem c all)
      → IsLeg last all best
      → IsLeg last all (chosen last now best cs)
  unfolding choose
  choose-IsLeg last now best [] all sub h = h
  choose-IsLeg last now best (c ∷ cs) all sub h =
      choose-IsLeg last now (considered last now best c) cs all (λ d m. sub d (mem-cons_of_mem c m))
        (elim (consider_cases last now best c) [
          | inl kept ↦ rw kept h
          | inr (node, leg) ↦ λ n e.
              let same : c ≡ n = cc in
              (
                subst (λ d. Mem d all) same (sub c mem-cons_self),
                subst
                    (λ d.
                      travel_from matrix (some last) d ≡ some (considered last now best c).travel_s)
                    same leg,
              )
        ])

  pub choose-IsLeg_self :
      (last : String) (now : ℕ) (cs : List String) → IsLeg last cs (chosen last now no_best cs)
  choose-IsLeg_self last now cs = choose-IsLeg last now no_best cs cs (λ c m. m) (λ n e. cc)
