-- ===== src/Engine/Nearest/Winner.antt =====
-- `nearest_neighbor` keeps the best of its attempts.
use mathlib.Core.List.{Memᴰ}
use travel_llm_planner.Common.{
  ℕ, ◌≤◌, ◌<◌, ◌≡◌, refl, sym, subst, String, true, Option, none, some, List, [], ◌∷◌, Dict, Perm,
  ◌⊎◌, inl, inr, arith,
}
use travel_llm_planner.Window.{TimeWindow}
use travel_llm_planner.Matrix.{DistanceMatrix}
use travel_llm_planner.Engine.Schedule.{large, route_travel_time, route_score, is_feasible}
use travel_llm_planner.Engine.Nearest.{Attempt, improve, attempts, nn_from_start, nearest_neighbor}
use travel_llm_planner.Engine.Nearest.Route.{IsFreeAnchor, IsAttempt, nn_from_start-IsAttempt}

route_score-nil : (weights : Option (Dict ℕ)) → route_score [] weights ≡ 0
unfolding route_score
route_score-nil none = refl
route_score-nil (some w) = refl

module _ (walk : List String → List String) (matrix : DistanceMatrix)
    (time_windows : Dict TimeWindow) (visit_durations_s : Dict ℕ) (day_start_s day_end_s : ℕ)
    (end_anchor : Option String) (weights : Option (Dict ℕ)) where
  abbrev try_start : String → List String → List String
  try_start start nodes =
      (nn_from_start walk matrix time_windows visit_durations_s day_start_s day_end_s end_anchor
        start nodes).0

  -- A higher score, or the same score in no more time.
  abbrev pub Beats : List String → List String → Type 0
  Beats winner route =
      (route_score route weights < route_score winner weights)
      ⊎ (route_score route weights ≡ route_score winner weights)
        × (route_travel_time winner matrix ≤ route_travel_time route matrix)

  -- The same against the recorded score and time, which the first, empty attempt sets itself.
  record IsRecord (best : Attempt) : Type 0 where
    scored : best.score ≡ route_score best.route weights
    timed : route_travel_time best.route matrix ≤ best.time_s

  abbrev Beaten : Attempt → List String → Type 0
  Beaten best route =
      (route_score route weights < best.score)
      ⊎ (route_score route weights ≡ best.score) × (best.time_s ≤ route_travel_time route matrix)

  abbrev better : List String → Attempt → Attempt
  better =
      improve walk matrix time_windows visit_durations_s day_start_s day_end_s end_anchor weights

  improve-IsRecord :
      (route : List String) (best : Attempt) → IsRecord best → IsRecord (better route best)
  unfolding improve
  improve-IsRecord route best r = ground arith

  improve-Beaten : (route : List String) (best : Attempt) → Beaten (better route best) route
  unfolding improve
  improve-Beaten route best = ground arith

  improve-Beaten_still :
      (route other : List String) (best : Attempt)
      → Beaten best other
      → Beaten (better route best) other
  unfolding improve
  improve-Beaten_still route other best b = ground arith

  start_IsRecord : IsRecord (record { route = []; score = 0; time_s = large })
  unfolding route_travel_time
  start_IsRecord = record { scored = sym (route_score-nil weights); timed = omega arith }

  pub improve_cases :
      (route : List String) (best : Attempt)
      → ((better route best).route ≡ route) ⊎ ((better route best).route ≡ best.route)
  unfolding improve
  improve_cases route best = ground arith

  module _ (nodes : List String) where
    abbrev run : List String → Attempt → Attempt
    run =
        attempts walk matrix time_windows visit_durations_s day_start_s day_end_s end_anchor weights
          nodes

    attempts-IsRecord :
        (starts : List String) (best : Attempt) → IsRecord best → IsRecord (run starts best)
    unfolding attempts
    attempts-IsRecord [] best r = r
    attempts-IsRecord (s ∷ ss) best r =
        attempts-IsRecord ss (better (try_start s nodes) best)
          (improve-IsRecord (try_start s nodes) best r)

    attempts-Beaten_still :
        (starts other : List String) (best : Attempt)
        → Beaten best other
        → Beaten (run starts best) other
    unfolding attempts
    attempts-Beaten_still [] other best b = b
    attempts-Beaten_still (s ∷ ss) other best b =
        attempts-Beaten_still ss other (better (try_start s nodes) best)
          (improve-Beaten_still (try_start s nodes) other best b)

    attempts-Beaten :
        (starts : List String) (best : Attempt) (start : String)
        → Memᴰ start starts
        → Beaten (run starts best) (try_start start nodes)
    unfolding attempts
    attempts-Beaten [] best start m = elim m [ ]
    attempts-Beaten (s ∷ ss) best start (Memᴰ.head e) =
        attempts-Beaten_still ss (try_start start nodes) (better (try_start s nodes) best) (
          subst (λ k. Beaten (better (try_start s nodes) best) (try_start k nodes)) (sym e)
            (improve-Beaten (try_start s nodes) best))
    attempts-Beaten (s ∷ ss) best start (Memᴰ.tail m) =
        attempts-Beaten ss (better (try_start s nodes) best) start m

    Beaten-Beats :
        (best : Attempt) (route : List String)
        → IsRecord best
        → Beaten best route
        → Beats best.route route
    Beaten-Beats best route r b = ground arith

    abbrev pub winner : List String × List String
    winner =
        nearest_neighbor walk matrix time_windows visit_durations_s day_start_s day_end_s end_anchor
          weights nodes

    -- No attempt from any of the nodes has a higher score than the route that is returned, nor the
    -- same score in less time.
    pub nearest_neighbor-Beats :
        (start : String) → Memᴰ start nodes → Beats winner.0 (try_start start nodes)
    unfolding nearest_neighbor
    nearest_neighbor-Beats start m =
        Beaten-Beats (run nodes (record { route = []; score = 0; time_s = large }))
          (try_start start nodes) (attempts-IsRecord nodes _ start_IsRecord)
          (attempts-Beaten nodes _ start m)

    -- Nothing, or a feasible route.
    abbrev pub IsUsable : List String → Type 0
    IsUsable route =
        (route ≡ [])
        ⊎ (is_feasible route matrix time_windows visit_durations_s day_start_s day_end_s ≡ true)

    attempts-IsUsable :
        ((start : String) → IsUsable (try_start start nodes))
        → (starts : List String) (best : Attempt) → IsUsable best.route
        → IsUsable (run starts best).route
    unfolding attempts
    attempts-IsUsable each [] best u = u
    attempts-IsUsable each (s ∷ ss) best u =
        attempts-IsUsable each ss (better (try_start s nodes) best)
          (elim (improve_cases (try_start s nodes) best) [
            | inl new ↦ subst IsUsable (sym new) (each s)
            | inr old ↦ subst IsUsable (sym old) u
          ])

    IsAttempt-IsUsable :
        (start : String) (r : List String × List String)
        → IsAttempt walk matrix time_windows visit_durations_s day_start_s day_end_s end_anchor
            end_anchor start nodes r
        → IsUsable r.0
    IsAttempt-IsUsable start r (inl (e, f)) = inl e
    IsAttempt-IsUsable start r (inr (rest, headed, fine, same)) = inr fine

    -- `nearest_neighbor` returns no route, or a feasible one, if Python walks each set over its
    -- members, the anchor is no place, and the day does not end before it starts.
    pub nearest_neighbor-IsUsable :
        ((s : List String) → Perm (walk s) s)
        → day_start_s ≤ day_end_s
        → IsFreeAnchor time_windows visit_durations_s end_anchor
        → IsUsable winner.0
    unfolding nearest_neighbor
    nearest_neighbor-IsUsable walks day free =
        attempts-IsUsable
          (λ start. IsAttempt-IsUsable start _ (
            nn_from_start-IsAttempt walk matrix time_windows visit_durations_s day_start_s day_end_s
              end_anchor walks day start nodes free))
          nodes _ (inl refl)
