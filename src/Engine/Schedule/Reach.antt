-- ===== src/Engine/Schedule/Reach.antt =====
-- A schedule cut to what the search carries along a route: the time after the last visit.
use travel_llm_planner.Common.{
  ℕ, ◌+◌, ◌≤◌, ◌≡◌, ◌≢◌, refl, ◌∙◌, String, true, false, ap, Option, none, some, List, [], ◌∷◌,
  ◌++◌, Dict, arith, ◌>>=◌, >>=-ap, >>=_assoc, >>=-some, sym, subst, last_or, leb, inl, inr,
  Option-cases, or_else, leb→le,
}
use travel_llm_planner.Window.{TimeWindow}
use travel_llm_planner.Matrix.{DistanceMatrix}
use travel_llm_planner.Engine.Schedule.{
  Stop, visit_s, travel_from, begin_visit, schedule_from, ends_by, is_feasible,
}

-- The departure from the last stop, or the time before the first.
abbrev pub final_s : ℕ → List Stop → ℕ
final_s now [] = now
final_s now (stop ∷ stops) = final_s stop.departure_s stops

-- The node that the next leg starts from.
abbrev pub last_node : Option String → List String → Option String
last_node prev [] = prev
last_node prev (node ∷ rest) = last_node (some node) rest

final_s-last :
    (now : ℕ) (stop : Stop) (stops : List Stop)
    → final_s now (stop ∷ stops) ≡ (last_or stop stops).departure_s
final_s-last now stop [] = refl
final_s-last now stop (next ∷ stops) = final_s-last stop.departure_s next stops

ends_by-final_s :
    (now day_end_s : ℕ) (stop : Stop) (stops : List Stop)
    → ends_by day_end_s (stop ∷ stops) ≡ leb (final_s now (stop ∷ stops)) day_end_s
ends_by-final_s now e stop stops = rw (final_s-last now stop stops)

module _ (matrix : DistanceMatrix) (time_windows : Dict TimeWindow) (visit_durations_s : Dict ℕ)
    (day_start_s : ℕ) where
  -- Departure from `node` after the leg from `prev`.
  unfoldable pub depart : Option String → ℕ → String → Option ℕ
  depart prev now node = travel_from matrix prev node >>= λ t.
      begin_visit time_windows visit_durations_s day_start_s node (now + t) >>= λ s.
      some (s + visit_s visit_durations_s node)

  unfoldable pub reach : Option String → ℕ → List String → Option ℕ
  unfolding depart
  reach prev now [] = some now
  reach prev now (node ∷ rest) = depart prev now node >>= λ t. reach (some node) t rest

  abbrev scheduled : Option String → ℕ → List String → Option (List Stop)
  scheduled = schedule_from matrix time_windows visit_durations_s day_start_s

  pub reach-schedule_from :
      (prev : Option String) (now : ℕ) (route : List String)
      → reach prev now route ≡ (scheduled prev now route >>= λ stops. some (final_s now stops))
  unfolding reach schedule_from
  reach-schedule_from prev now [] = refl
  reach-schedule_from prev now (node ∷ rest) = simp >>=_assoc (
      >>=-ap (travel_from matrix prev node) _ _ λ t.
        >>=-ap (begin_visit time_windows visit_durations_s day_start_s node (now + t)) _ _
          λ s. reach-schedule_from (some node) (s + visit_s visit_durations_s node) rest)

  pub reach-append :
      (prev : Option String) (now : ℕ) (xs : List String) (x : String)
      → reach prev now (xs ++ x ∷ []) ≡ (reach prev now xs >>= λ t. depart (last_node prev xs) t x)
  unfolding reach
  reach-append prev now [] x = >>=-some _
  reach-append prev now (y ∷ xs) x =
      >>=-ap (depart prev now y) _ _ (λ t. reach-append (some y) t xs x)
      ∙ sym (>>=_assoc (depart prev now y) _ _)

  schedule_from-ne-nil :
      (prev : Option String) (now : ℕ) (node : String) (rest : List String)
      → scheduled prev now (node ∷ rest) ≢ some []
  unfolding schedule_from
  schedule_from-ne-nil prev now node rest h = ground arith

  ends_by-reach :
      (day_end_s t : ℕ) (now : ℕ) (o : Option (List Stop))
      → o ≢ some []
      → (o >>= λ stops. some (final_s now stops)) ≡ some t
      → ends_by day_end_s (or_else o []) ≡ leb t day_end_s
  ends_by-reach e t now none ne h = cc
  ends_by-reach e t now (some []) ne h = absurd (ne refl)
  ends_by-reach e t now (some (stop ∷ stops)) ne h =
      let same : final_s now (stop ∷ stops) ≡ t = cc in
      ends_by-final_s now e stop stops ∙ ap (λ k. leb k e) same

  -- A route is feasible exactly when it has a stop, can be walked, and ends in time.
  pub is_feasible-reach :
      (day_end_s t : ℕ) (route : List String)
      → route ≢ []
      → reach none day_start_s route ≡ some t
      → is_feasible route matrix time_windows visit_durations_s day_start_s day_end_s
        ≡ leb t day_end_s
  unfolding is_feasible
  is_feasible-reach day_end_s t [] ne h = absurd (ne refl)
  is_feasible-reach day_end_s t (node ∷ rest) ne h =
      ends_by-reach day_end_s t day_start_s _ (schedule_from-ne-nil none day_start_s node rest)
        (sym (reach-schedule_from none day_start_s (node ∷ rest)) ∙ h)

  is_feasible-none :
      (day_end_s : ℕ) (route : List String)
      → reach none day_start_s route ≡ none
      → is_feasible route matrix time_windows visit_durations_s day_start_s day_end_s ≡ false
  unfolding is_feasible
  is_feasible-none day_end_s route h = go _ (sym (reach-schedule_from none day_start_s route) ∙ h)
    where
      go :
          (o : Option (List Stop))
          → (o >>= λ stops. some (final_s day_start_s stops)) ≡ none
          → ends_by day_end_s (or_else o []) ≡ false
      go none e = refl
      go (some stops) e = cc

  nil-infeasible :
      (day_end_s : ℕ)
      → is_feasible [] matrix time_windows visit_durations_s day_start_s day_end_s ≢ true
  unfolding is_feasible schedule_from
  nil-infeasible day_end_s h = cc

  pub reach-is_feasible :
      (day_end_s : ℕ) (route : List String)
      → is_feasible route matrix time_windows visit_durations_s day_start_s day_end_s ≡ true
      → (t : ℕ) × (reach none day_start_s route ≡ some t) × (t ≤ day_end_s) × (route ≢ [])
  reach-is_feasible day_end_s route h = elim (Option-cases (reach none day_start_s route)) [
    | inl nothing ↦ cc (is_feasible-none day_end_s route nothing)
    | inr (t, found) ↦
        let ne : route ≢ [] = λ e. nil-infeasible day_end_s (
          subst
            (λ r. is_feasible r matrix time_windows visit_durations_s day_start_s day_end_s ≡ true)
            e h) in
        (t, found, leb→le _ _ (sym (is_feasible-reach day_end_s t route ne found) ∙ h), ne)
  ]
