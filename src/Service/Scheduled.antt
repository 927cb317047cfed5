-- ===== src/Service/Scheduled.antt =====
-- The schedule of a route: its stops are the route's nodes, and the first is not travelled to.
use travel_llm_planner.Common.{
  ℕ, ◌+◌, ◌≡◌, refl, sym, ap, ◌∙◌, subst, ◌⊎◌, inl, inr, true, Option, none, some, String, List, [],
  ◌∷◌, Dict, map, >>=-eq-some, Option-cases,
}
use travel_llm_planner.Window.{TimeWindow}
use travel_llm_planner.Matrix.{DistanceMatrix}
use travel_llm_planner.Engine.Schedule.{
  Stop, schedule_route, schedule_from, is_feasible, travel_from, begin_visit, visit_s,
}
use travel_llm_planner.Engine.Schedule.Reach.{reach-schedule_from, reach-is_feasible}

abbrev pub stop_ids : List Stop → List String
stop_ids stops = map (λ (s : Stop). s.place_id) stops

-- A feasible route is scheduled stop by stop.
schedule_from-ids :
    (matrix : DistanceMatrix) (time_windows : Dict TimeWindow) (visit_durations_s : Dict ℕ)
    (day_start_s : ℕ) (prev : Option String) (now : ℕ) (route : List String) (stops : List Stop)
    → schedule_from matrix time_windows visit_durations_s day_start_s prev now route ≡ some stops
    → stop_ids stops ≡ route
unfolding schedule_from
schedule_from-ids m tw vd d prev now [] stops h =
    let e : [] ≡ stops = cc in subst (λ s. stop_ids s ≡ []) e refl
schedule_from-ids m tw vd d prev now (n ∷ ns) stops h =
    let (t, travels, h₁) = >>=-eq-some (travel_from m prev n) _ h in
    let (s, begins, h₂) = >>=-eq-some (begin_visit tw vd d n (now + t)) _ h₁ in
    let (rest, goes_on, h₃) =
      >>=-eq-some (schedule_from m tw vd d (some n) (s + visit_s vd n) ns) _ h₂ in
    let ih = schedule_from-ids m tw vd d (some n) (s + visit_s vd n) ns rest goes_on in
    let stop : Stop = record {
      place_id = n;
      arrival_s = now + t;
      departure_s = s + visit_s vd n;
      travel_s = t;
    } in
    let made : stop ∷ rest ≡ stops = cc in
    subst (λ k. stop_ids k ≡ n ∷ ns) made (ap (λ k. n ∷ k) ih)

pub schedule_route-ids :
    (matrix : DistanceMatrix) (time_windows : Dict TimeWindow) (visit_durations_s : Dict ℕ)
    (day_start_s day_end_s : ℕ) (route : List String)
    → (route ≡ [])
      ⊎ (is_feasible route matrix time_windows visit_durations_s day_start_s day_end_s ≡ true)
    → stop_ids (schedule_route matrix time_windows visit_durations_s day_start_s route) ≡ route
unfolding schedule_route schedule_from
schedule_route-ids m tw vd ds de route (inl e) = rw e refl
schedule_route-ids m tw vd ds de route (inr fine) =
    let (t, reached, le, ne) = reach-is_feasible m tw vd ds de route fine in
    let (stops, made, ends) =
      >>=-eq-some (schedule_from m tw vd ds none ds route) _
        (sym (reach-schedule_from m tw vd ds none ds route) ∙ reached) in
    rw made (schedule_from-ids m tw vd ds none ds route stops made)

-- No time is spent on the way to the first stop.
abbrev pub IsUnmoved : List Stop → Type 0
IsUnmoved [] = Unit {0}
IsUnmoved (s ∷ ss) = s.travel_s ≡ 0

schedule_from-IsUnmoved :
    (matrix : DistanceMatrix) (time_windows : Dict TimeWindow) (visit_durations_s : Dict ℕ)
    (day_start_s now : ℕ) (route : List String) (stops : List Stop)
    → schedule_from matrix time_windows visit_durations_s day_start_s none now route ≡ some stops
    → IsUnmoved stops
unfolding schedule_from travel_from
schedule_from-IsUnmoved m tw vd d now [] stops h = let e : [] ≡ stops = cc in subst IsUnmoved e tt
schedule_from-IsUnmoved m tw vd d now (n ∷ ns) stops h =
    let (s, begins, h₁) = >>=-eq-some (begin_visit tw vd d n (now + 0)) _ h in
    let (rest, goes_on, h₂) =
      >>=-eq-some (schedule_from m tw vd d (some n) (s + visit_s vd n) ns) _ h₁ in
    let stop : Stop = record {
      place_id = n;
      arrival_s = now + 0;
      departure_s = s + visit_s vd n;
      travel_s = 0;
    } in
    let made : stop ∷ rest ≡ stops = cc in subst IsUnmoved made refl

pub schedule_route-IsUnmoved :
    (matrix : DistanceMatrix) (time_windows : Dict TimeWindow) (visit_durations_s : Dict ℕ)
    (day_start_s : ℕ) (route : List String)
    → IsUnmoved (schedule_route matrix time_windows visit_durations_s day_start_s route)
unfolding schedule_route
schedule_route-IsUnmoved m tw vd d route =
    elim (Option-cases (schedule_from m tw vd d none d route)) [
      | inl stuck ↦ rw stuck tt
      | inr (stops, made) ↦ rw made (schedule_from-IsUnmoved m tw vd d d route stops made)
    ]
