-- ===== src/Service/Travel.antt =====
-- The travel of `optimize_route`: the route begins at the start anchor and meets each anchor once.
use travel_llm_planner.Common.{
  ℕ, ◌+◌, ◌≤◌, ◌≡◌, refl, ap, ◌∙◌, inl, inr, true, Option, none, some, String, List, [], ◌∷◌, ◌++◌,
  ◌⊎◌, arith, same_refl, Dict, Perm, All,
}
use travel_llm_planner.Common.Counting.{occurrences, one_if_same, occurrences-append, SameItems}
use travel_llm_planner.Window.{TimeWindow}
use travel_llm_planner.Matrix.{DistanceMatrix}
use travel_llm_planner.Engine.Schedule.{Stop}
use travel_llm_planner.Engine.Nearest.{contains}
use travel_llm_planner.Engine.Nearest.Route.{anchors, IsFreeAnchor, nn_from_start-IsAttempt}
use travel_llm_planner.Engine.TwoOpt.Reversal.{first_or}
use travel_llm_planner.Service.Priorities.{
  Solved, solve_tier, solve_with_priorities, tiers, attempt, weights_of, is_must_see, select,
  is_not_optional,
}
use travel_llm_planner.Service.Counts.{same_comm}
use travel_llm_planner.Service.Tiers.{ends_of}
use travel_llm_planner.Service.Guarantee.{try_tiers-keeps}
use travel_llm_planner.Service.Scheduled.{stop_ids, IsUnmoved}
use travel_llm_planner.Service.Stops.{ends_at, IsStill, HasRoom}

-- A route with a start anchor is empty or begins there.
abbrev pub StartsAt : Option String → List String → Type 0
StartsAt none route = Unit {0}
StartsAt (some a) route = first_or a route ≡ a

module _ (walk : List String → List String) (walks : (s : List String) → Perm (walk s) s)
    (matrix : DistanceMatrix) (time_windows : Dict TimeWindow) (visit_durations_s : Dict ℕ)
    (day_start_s day_end_s : ℕ) (day : day_start_s ≤ day_end_s) where
  solve_tier-StartsAt :
      (start_anchor end_anchor : Option String) (weights : Dict ℕ) (tier : List String)
      → IsFreeAnchor time_windows visit_durations_s end_anchor
      → StartsAt start_anchor
          (solve_tier walk matrix time_windows visit_durations_s day_start_s day_end_s start_anchor
            end_anchor weights tier).0
  unfolding solve_tier
  solve_tier-StartsAt none end_anchor weights tier free = tt
  solve_tier-StartsAt (some a) end_anchor weights tier free =
      elim (nn_from_start-IsAttempt walk matrix time_windows visit_durations_s day_start_s day_end_s
        end_anchor walks day a tier free) [
          | inl (nil, left) ↦ ap (first_or a) nil
          | inr (rest, headed, fine, all) ↦ ap (first_or a) headed
        ]

  pub solve_with_priorities-StartsAt :
      (start_anchor end_anchor : Option String) (ids : List String) (priorities : Dict String)
      → IsFreeAnchor time_windows visit_durations_s end_anchor
      → ((n : String) → is_must_see priorities n ≡ true → contains ids n ≡ true)
      → (final : Solved)
      → solve_with_priorities walk matrix time_windows visit_durations_s day_start_s day_end_s
          start_anchor end_anchor ids priorities
        ≡ some final
      → StartsAt start_anchor final.route
  unfolding solve_with_priorities tiers attempt
  solve_with_priorities-StartsAt start_anchor end_anchor ids priorities free known final done =
      let weights = weights_of priorities ids in
      let starts =
        λ (tier : List String). solve_tier-StartsAt start_anchor end_anchor weights tier free in
      try_tiers-keeps
        (solve_tier walk matrix time_windows visit_durations_s day_start_s day_end_s start_anchor
          end_anchor weights)
        priorities ids known (λ (s : Solved). StartsAt start_anchor s.route) none none
        (ids ∷ select (is_not_optional priorities) ids ∷ select (is_must_see priorities) ids ∷ [])
        final done
        (
          starts ids,
          (
            starts (select (is_not_optional priorities) ids),
            (starts (select (is_must_see priorities) ids), tt),
          ),
        )
        (λ b e. cc)

pub StartsAt-two_opt :
    (start_id : Option String) (before after : List String)
    → ((d : String) → first_or d after ≡ first_or d before)
    → StartsAt start_id before
    → StartsAt start_id after
StartsAt-two_opt none before after first starts = tt
StartsAt-two_opt (some a) before after first starts = first a ∙ starts

ends_at-none : (stops : List Stop) → ends_at none stops ≡ 0
unfolding ends_at
ends_at-none [] = refl
ends_at-none (s ∷ ss) = let e = ends_at-none ss in omega (arith, e)

ends_at-some :
    (a : String) (stops : List Stop) → ends_at (some a) stops ≡ occurrences a (stop_ids stops)
unfolding ends_at occurrences
ends_at-some a [] = refl
ends_at-some a (s ∷ ss) =
    let e = ends_at-some a ss in
    rw (same_comm s.place_id a) (ap (λ n. one_if_same a s.place_id + n) e)

pub ends_at-le :
    (end_id : Option String) (stops : List Stop)
    → ((a : String) → end_id ≡ some a → occurrences a (stop_ids stops) ≤ 1)
    → ends_at end_id stops ≤ 1
ends_at-le none stops once = let e = ends_at-none stops in omega (arith, e)
ends_at-le (some a) stops once =
    let e = ends_at-some a stops in let o = once a refl in omega (arith, e, o)

IsStill-nowhere : (stops : List Stop) → All (IsStill none) stops
IsStill-nowhere [] = tt
IsStill-nowhere (s ∷ ss) = ((λ h. cc), IsStill-nowhere ss)

IsStill-elsewhere :
    (a : String) (stops : List Stop)
    → occurrences a (stop_ids stops) ≡ 0
    → All (IsStill (some a)) stops
unfolding occurrences
IsStill-elsewhere a [] e = tt
IsStill-elsewhere a (s ∷ ss) e = (
  λ h. let k = rw (same_comm a s.place_id ∙ h) at e in absurd (omega (arith, k)),
  IsStill-elsewhere a ss (omega (arith, e)),
)

-- The start is met once, as the first stop.
pub All-IsStill :
    (start_id : Option String) (stops : List Stop)
    → IsUnmoved stops
    → ((a : String) → start_id ≡ some a → occurrences a (stop_ids stops) ≤ 1)
    → StartsAt start_id (stop_ids stops)
    → All (IsStill start_id) stops
unfolding occurrences
All-IsStill none stops unmoved once starts = IsStill-nowhere stops
All-IsStill (some a) [] unmoved once starts = tt
All-IsStill (some a) (s ∷ ss) unmoved once starts = (
  λ h. unmoved,
  IsStill-elsewhere a ss
      (let o = rw starts at once a refl in let q = rw (same_refl a) at o in omega (arith, q)),
)

ends_of-start :
    (start_id end_id : Option String) (a : String)
    → start_id ≡ some a
    → 1 ≤ occurrences a (ends_of start_id end_id)
unfolding occurrences
ends_of-start start_id end_id a h = rw h (rw (same_refl a) (omega arith))

ends_of-end :
    (start_id end_id : Option String) (a : String)
    → end_id ≡ some a
    → 1 ≤ occurrences a (ends_of start_id end_id)
unfolding occurrences
ends_of-end start_id end_id a h = rw h (
    let c = occurrences-append a (anchors start_id) (a ∷ []) in
    let q = rw (same_refl a) at c in omega (arith, q))

-- The stops reach the end at most once and do not travel to the start.
pub stops_travel_once :
    (start_id end_id : Option String) (stops : List Stop)
    → IsUnmoved stops
    → StartsAt start_id (stop_ids stops)
    → ((a : String)
        → 1 ≤ occurrences a (ends_of start_id end_id)
        → occurrences a (stop_ids stops) ≤ 1)
    → All (IsStill start_id) stops × HasRoom end_id 0 stops
stops_travel_once start_id end_id stops unmoved starts once = (
  All-IsStill start_id stops unmoved (λ a h. once a (ends_of-start start_id end_id a h)) starts,
  inl (refl, ends_at-le end_id stops (λ a h. once a (ends_of-end start_id end_id a h))),
)

-- An anchor that is no node is met once.
pub anchor_met_once :
    (route skipped dropped nodes ends : List String) (x : String)
    → (route ≡ []) ⊎ SameItems (route ++ skipped ++ dropped) (nodes ++ ends)
    → occurrences x nodes ≡ 0
    → occurrences x ends ≤ 1
    → occurrences x route ≤ 1
unfolding occurrences
anchor_met_once route skipped dropped nodes ends x (inl nil) free le =
    let k = ap (occurrences x) nil in omega arith
anchor_met_once route skipped dropped nodes ends x (inr all) free le =
    let a = all x in
    let b = occurrences-append x (route ++ skipped) dropped in
    let d = occurrences-append x route skipped in
    let c = occurrences-append x nodes ends in omega arith
