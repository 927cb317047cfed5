-- ===== src/Engine/Tests.antt =====
-- A day in a small town: four places, one with a lunch break, and a hotel to end at.
use mathlib.Core.List.{Memᴰ}
use mathlib.Core.List.Perm
use travel_llm_planner.Common.{
  ℕ, ◌≤◌, ◌≡◌, ◌≢◌, ◌↔◌, refl, String, true, false, none, some, List, [], ◌∷◌, Dict, lookup, arith,
  last_or,
}
use travel_llm_planner.Window.{TimeWindow, from_segments, earliest_start, close_s}
use travel_llm_planner.Window.Earliest.{from_segments-IsOrderedWindow}
use travel_llm_planner.Matrix.{DistanceMatrix, MatrixEntry, walk, get}
use travel_llm_planner.Engine.Schedule.{
  schedule_from, schedule_route, is_feasible, route_travel_time, route_score, visit_s, travel_from,
  begin_visit, begin_in,
}
use travel_llm_planner.Engine.Schedule.Timetable.{
  OrderedWindows, OrderedWindows-nil, OrderedWindows-cons, IsTimetable, ends_at, is_feasible_iff,
}
use travel_llm_planner.Engine.Nearest.{
  nn_from_start, nearest_neighbor, rounds, next_round, choose, consider, attempts, improve, discard,
  to_set, missing, first_start, close_route, contains, begun,
}
use travel_llm_planner.Engine.Nearest.Rounds.{IsOver}
use travel_llm_planner.Engine.Nearest.Route.{IsAttempt, nn_from_start-IsAttempt, nn_loop-IsOver}
use travel_llm_planner.Engine.Nearest.Winner.{
  Beats, IsUsable, nearest_neighbor-Beats, nearest_neighbor-IsUsable,
}
use travel_llm_planner.Engine.TwoOpt.{
  two_opt, improve_loop, find_swap, scan_i, scan_j, accepts, reversal,
}
use travel_llm_planner.Engine.TwoOpt.Improvement.{Improved}
use travel_llm_planner.Engine.TwoOpt.Result.{two_opt-Improved, two_opt-last}

abbrev leg : String → String → ℕ → (String × String) × MatrixEntry
leg o d s = ((o, d), record { origin_id = o; dest_id = d; distance_m = s; duration_s = s })

-- Four places on a line: a, b, c, d, ten minutes apart.
abbrev town : DistanceMatrix
town = record {
  entries =
      leg "a" "b" 600
      ∷ leg "b" "a" 600
      ∷ leg "a" "c" 1200
      ∷ leg "c" "a" 1200
      ∷ leg "a" "d" 1800
      ∷ leg "d" "a" 1800
      ∷ leg "b" "c" 600
      ∷ leg "c" "b" 600
      ∷ leg "b" "d" 1200
      ∷ leg "d" "b" 1200
      ∷ leg "c" "d" 600
      ∷ leg "d" "c" 600
      ∷ leg "d" "__end__" 300
      ∷ leg "c" "__end__" 900
      ∷ leg "b" "__end__" 1500
      ∷ [];
  transport_mode = walk;
  computed_at = 0;
}

abbrev lunch_break : TimeWindow
lunch_break =
    from_segments
      (record { open_s = 46800; close_s = 64800 } ∷ record { open_s = 32400; close_s = 43200 } ∷ [])

abbrev hours : Dict TimeWindow
hours = ("c", lunch_break) ∷ []

abbrev visits : Dict ℕ
visits = ("a", 3600) ∷ ("b", 3600) ∷ ("c", 3600) ∷ ("d", 1800) ∷ []

abbrev places : List String
places = "a" ∷ "b" ∷ "c" ∷ "d" ∷ []

abbrev morning : ℕ
morning = 32400

abbrev evening : ℕ
evening = 75600

hours-OrderedWindows : OrderedWindows hours
hours-OrderedWindows =
    OrderedWindows-cons "c" lunch_break [] (from_segments-IsOrderedWindow _) OrderedWindows-nil

abbrev as_listed : List String → List String
as_listed s = s

program : Unit {0}
unfolding schedule_route schedule_from is_feasible route_travel_time route_score visit_s travel_from
    begin_visit begin_in nn_from_start nearest_neighbor rounds next_round choose consider attempts
    improve discard to_set missing first_start close_route contains two_opt improve_loop find_swap
    scan_i scan_j accepts reversal earliest_start from_segments close_s lookup get
program = tt

visits_in_order :
    nn_from_start as_listed town hours visits morning evening none "a" places
    ≡ ("a" ∷ "c" ∷ "b" ∷ "d" ∷ [], [])
unfolding program
visits_in_order = refl

straightened :
    two_opt town hours visits morning evening ("a" ∷ "c" ∷ "b" ∷ "d" ∷ []) 100 false ≡ places
unfolding program
straightened = refl

ends_at_hotel :
    (nn_from_start as_listed town hours visits morning evening (some "__end__") "a" places).0
    ≡ "a" ∷ "c" ∷ "b" ∷ "d" ∷ "__end__" ∷ []
unfolding program
ends_at_hotel = refl

abbrev crooked : List String
crooked = "a" ∷ "c" ∷ "b" ∷ "d" ∷ []

is_feasible_iff_example :
    (is_feasible crooked town hours visits morning evening ≡ true)
    ↔ (crooked ≢ [])
      × (ss : List ℕ) × IsTimetable town hours visits morning none morning crooked ss
      × (ends_at town hours visits morning morning crooked ss ≤ evening)
is_feasible_iff_example =
    is_feasible_iff town hours visits morning hours-OrderedWindows evening crooked

nn_from_start-IsAttempt_example :
    IsAttempt as_listed town hours visits morning evening
      (some "__end__")
      (some "__end__")
      "a"
      places
      (nn_from_start as_listed town hours visits morning evening (some "__end__") "a" places)
unfolding lookup
nn_from_start-IsAttempt_example =
    nn_from_start-IsAttempt as_listed town hours visits morning evening (some "__end__")
      (λ s. Perm.rfl) (omega arith) "a" places (refl, refl)

nn_loop-IsOver_example :
    IsOver as_listed town hours visits morning evening none
      (λ s. Perm.rfl)
      "a"
      (rounds as_listed town hours visits morning evening none 3 "a" (begun "a" places 36000))
unfolding program
nn_loop-IsOver_example =
    nn_loop-IsOver as_listed town hours visits morning evening none (λ s. Perm.rfl) (omega arith)
      "a" places morning refl (omega arith)

nearest_neighbor-Beats_example :
    Beats as_listed town hours visits morning evening none none
      (nearest_neighbor as_listed town hours visits morning evening none none places).0
      (nn_from_start as_listed town hours visits morning evening none "b" places).0
nearest_neighbor-Beats_example =
    nearest_neighbor-Beats as_listed town hours visits morning evening none none places "b"
      (Memᴰ.tail (Memᴰ.head refl))

nearest_neighbor-IsUsable_example :
    IsUsable as_listed town hours visits morning evening none none places
      (nearest_neighbor as_listed town hours visits morning evening none none places).0
nearest_neighbor-IsUsable_example =
    nearest_neighbor-IsUsable as_listed town hours visits morning evening none none places
      (λ s. Perm.rfl) (omega arith) tt

two_opt-Improved_example :
    Improved town hours visits morning evening crooked
      (two_opt town hours visits morning evening crooked 100 false)
two_opt-Improved_example = two_opt-Improved town hours visits morning evening crooked 100 false

two_opt-last_example :
    last_or "a" (two_opt town hours visits morning evening crooked 100 true) ≡ last_or "a" crooked
two_opt-last_example = two_opt-last town hours visits morning evening "a" crooked 100
