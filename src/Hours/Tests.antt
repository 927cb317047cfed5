-- ===== src/Hours/Tests.antt =====
-- A restaurant with a lunch break, open on Mondays until after midnight.
use travel_llm_planner.Common.{ℕ, ◌≡◌, refl, none, some, [], ◌∷◌, arith}
use travel_llm_planner.Window.{insert_segment, sort_segments, from_segments}
use travel_llm_planner.Hours.{
  PeriodTime, PlaceHours, on_day, day_segments, window_of, parse_time_window,
}
use travel_llm_planner.Hours.Allowed.{Allows, DecidesAt, parse_time_window-DecidesAt}

abbrev at_time : ℕ → ℕ → PeriodTime
at_time day hour = record { day = some day; hour = some hour; minute = none }

abbrev restaurant : PlaceHours
restaurant = record {
  preferred_hour_from = some 11;
  preferred_hour_to = none;
  periods =
      record { opening = at_time 1 18; closing = some (at_time 2 2) }
      ∷ record { opening = at_time 1 10; closing = some (at_time 1 14) }
      ∷ record { opening = at_time 2 10; closing = some (at_time 2 14) }
      ∷ [];
}

monday :
    parse_time_window restaurant 32400 79200 (some 1)
    ≡ some (record {
      segments =
          record { open_s = 39600; close_s = 50400 }
          ∷ record { open_s = 64800; close_s = 79200 }
          ∷ [];
    })
unfolding parse_time_window on_day day_segments window_of from_segments sort_segments insert_segment
monday = refl

sunday : parse_time_window restaurant 32400 79200 (some 0) ≡ none
unfolding parse_time_window on_day day_segments window_of
sunday = refl

parse_time_window-DecidesAt_example :
    DecidesAt
      (parse_time_window restaurant 32400 79200 (some 1))
      (Allows restaurant 32400 79200 (some 1) 3600 40000)
      3600
      40000
parse_time_window-DecidesAt_example =
    parse_time_window-DecidesAt restaurant 32400 79200 (some 1) 3600 40000 (omega arith)
